-- ===== src/Kernel/Str/Copy.antt =====
-- What the fills and bounded copies of string.c leave in memory.
use learn_mit_s.Common.{
  ℕ, zero, suc, ◌+◌, ◌%◌, ◌≤◌, ◌<◌, ◌≡◌, ap, ◌⊎◌, ◌&&◌, arith, ltb, leb, if◌then◌else◌, update,
}
use learn_mit_s.Kernel.Str.{Mem, memset, memset_from, safestrcpy, safestrcpy_loop}
use learn_mit_s.Kernel.Str.Compare.{NoNul}

memset_from_lem :
    (n i dst c : ℕ) (m : Mem) (a : ℕ)
    → memset_from n i dst c m a ≡ (if leb (dst + i) a && ltb a (dst + i + n) then c % 256 else m a)
unfolding memset_from
memset_from_lem zero i dst c m a = ground arith
memset_from_lem (suc n) i dst c m a =
    ground (arith, memset_from_lem n (i + 1) dst c (update m (dst + i) (c % 256)) a)

-- `memset` stores the low byte of `c` in each of the `n` bytes and changes no other byte.
pub memset_lem :
    (dst c n : ℕ) (m : Mem) (a : ℕ)
    → memset dst c n m a ≡ (if leb dst a && ltb a (dst + n) then c % 256 else m a)
unfolding memset
memset_lem dst c n m a = ground (arith, memset_from_lem n 0 dst c m a)

-- The `n` bytes at `s` and the `n` bytes at `t` do not overlap.
abbrev pub Apart : ℕ → ℕ → ℕ → Type 0
Apart s t n = (t + n ≤ s) ⊎ (s + n ≤ t)

-- The string at `t` ends after `k` bytes, or is cut there by the bound `n`.
abbrev pub Cut : ℕ → ℕ → ℕ → Mem → Type 0
Cut t k n m = (k ≡ n) ⊎ (m (t + k) ≡ 0)

safe_outside :
    (n s t : ℕ) (m : Mem) (a : ℕ) → (a < s) ⊎ (s + n < a) → safestrcpy_loop n s t m a ≡ m a
unfolding safestrcpy_loop
safe_outside zero s t m a h = ground arith
safe_outside (suc n) s t m a h = ground (arith, safe_outside n (s + 1) (t + 1) (update m s (m t)) a)

-- A byte of the source is as it was after the first byte has been copied.
kept :
    (n s t : ℕ) (m : Mem) (v j : ℕ) → Apart s t (suc n) → j ≤ n → update m s v (t + j) ≡ m (t + j)
kept n s t m v j ap h = ground arith

NoNul-step :
    (n s t k : ℕ) (m : Mem)
    → Apart s t (suc n)
    → k < n
    → NoNul t (suc k) m
    → NoNul (t + 1) k (update m s (m t))
NoNul-step n s t k m ap kn live j h = ground (arith, live (suc j))

safe_copied :
    (n s t k : ℕ) (m : Mem)
    → Apart s t (suc n)
    → k ≤ n
    → NoNul t k m
    → (i : ℕ) → i < k
    → safestrcpy_loop n s t m (s + i) ≡ m (t + i)
unfolding safestrcpy_loop
safe_copied n s t zero m ap le live i h = absurd (omega arith)
safe_copied zero s t (suc k) m ap le live i h = absurd (omega arith)
safe_copied (suc n) s t (suc k) m ap le live zero h =
    ground (arith, live 0, safe_outside n (s + 1) (t + 1) (update m s (m t)) (s + 0) (omega arith))
safe_copied (suc n) s t (suc k) m ap le live (suc i) h = ground (
  arith,
  live 0,
  safe_copied n (s + 1) (t + 1) k (update m s (m t)) (omega arith) (omega arith)
      (NoNul-step (suc n) s t k m ap (omega arith) live) i (omega arith),
)

safe_ended :
    (n s t k : ℕ) (m : Mem)
    → Apart s t (suc n)
    → k ≤ n
    → NoNul t k m
    → Cut t k n m
    → safestrcpy_loop n s t m (s + k) ≡ 0
unfolding safestrcpy_loop
safe_ended zero s t zero m ap le live cut = ground arith
safe_ended (suc n) s t zero m ap le live cut =
    ground (arith, safe_outside n (s + 1) (t + 1) (update m s (m t)) (s + 0) (omega arith))
safe_ended zero s t (suc k) m ap le live cut = absurd (omega arith)
safe_ended (suc n) s t (suc k) m ap le live cut = ground (
  arith,
  live 0,
  safe_ended n (s + 1) (t + 1) k (update m s (m t)) (omega arith) (omega arith)
      (NoNul-step (suc n) s t k m ap (omega arith) live) (ground arith),
)

-- `safestrcpy` into `n > 0` bytes apart from the source copies the `k` bytes before the terminator
-- or before the last place, ends the copy by a NUL within the `n` bytes, and changes nothing
-- outside them.
pub safestrcpy_lem :
    (s t n k : ℕ) (m : Mem)
    → Apart s t (suc n)
    → k ≤ n
    → NoNul t k m
    → Cut t k n m
    → ((i : ℕ) → i < k → safestrcpy s t (suc n) m (s + i) ≡ m (t + i))
      × (safestrcpy s t (suc n) m (s + k) ≡ 0)
      × ((a : ℕ) → (a < s) ⊎ (s + n < a) → safestrcpy s t (suc n) m a ≡ m a)
unfolding safestrcpy
safestrcpy_lem s t n k m ap le live cut =
    (safe_copied n s t k m ap le live, safe_ended n s t k m ap le live cut, safe_outside n s t m)
