-- ===== src/Kernel/Str/Compare.antt =====
-- What the comparisons of string.c decide, and the length of a string.
use learn_mit_s.Common.{
  ℕ, zero, suc, ◌+◌, ◌<◌, ◌≡◌, refl, ◌≢◌, ◌↔◌, inl, inr, some, arith, ◌==◌, ==_false, Bool-cases,
  pos,
}
use learn_mit_s.Kernel.Str.{Mem, memcmp, strncmp, strlen, strlen_from}

-- The first `n` bytes at `p` and at `q` are the same.
abbrev pub SameBytes : ℕ → ℕ → ℕ → Mem → Type 0
SameBytes p q n m = (i : ℕ) → i < n → m (p + i) ≡ m (q + i)

memcmp_sound :
    (n p q : ℕ) (m : Mem) (i : ℕ) → i < n → memcmp p q n m ≡ pos 0 → m (p + i) ≡ m (q + i)
unfolding memcmp
memcmp_sound zero p q m i lt h = absurd (omega arith)
memcmp_sound (suc n) p q m zero lt h = ground arith
memcmp_sound (suc n) p q m (suc i) lt h = ground (arith, memcmp_sound n (p + 1) (q + 1) m i)

SameBytes-tail : (n p q : ℕ) (m : Mem) → SameBytes p q (suc n) m → SameBytes (p + 1) (q + 1) n m
SameBytes-tail n p q m s i lt = ground (arith, s (suc i))

memcmp_complete : (n p q : ℕ) (m : Mem) → SameBytes p q n m → memcmp p q n m ≡ pos 0
unfolding memcmp
memcmp_complete zero p q m s = refl
memcmp_complete (suc n) p q m s =
    ground (arith, s 0, memcmp_complete n (p + 1) (q + 1) m (SameBytes-tail n p q m s))

-- `memcmp` answers 0 exactly when the two ranges hold the same bytes.
pub memcmp-zero_iff : (n p q : ℕ) (m : Mem) → (memcmp p q n m ≡ pos 0) ↔ SameBytes p q n m
memcmp-zero_iff n p q m = (λ h i lt. memcmp_sound n p q m i lt h, memcmp_complete n p q m)

-- No byte of the first `i` at `p` is the terminator.
abbrev pub NoNul : ℕ → ℕ → Mem → Type 0
NoNul p i m = (j : ℕ) → j < i → m (p + j) ≢ 0

-- The strings at `p` and at `q` agree at each of the first `n` places that `p` reaches.
abbrev pub SameText : ℕ → ℕ → ℕ → Mem → Type 0
SameText p q n m = (i : ℕ) → i < n → NoNul p i m → m (p + i) ≡ m (q + i)

strncmp_sound :
    (n p q : ℕ) (m : Mem) (i : ℕ)
    → i < n
    → NoNul p i m
    → strncmp p q n m ≡ pos 0
    → m (p + i) ≡ m (q + i)
unfolding strncmp
strncmp_sound zero p q m i lt live h = absurd (omega arith)
strncmp_sound (suc n) p q m zero lt live h = ground arith
strncmp_sound (suc n) p q m (suc i) lt live h = ground (
  arith,
  live 0,
  strncmp_sound n (p + 1) (q + 1) m i (omega arith) (λ j k. ground (arith, live (suc j))),
)

NoNul-suc : (p i : ℕ) (m : Mem) → m p ≢ 0 → NoNul (p + 1) i m → NoNul p (suc i) m
NoNul-suc p i m ne live zero k = ground arith
NoNul-suc p i m ne live (suc j) k = ground (arith, live j)

strncmp_complete : (n p q : ℕ) (m : Mem) → SameText p q n m → strncmp p q n m ≡ pos 0
unfolding strncmp
strncmp_complete zero p q m s = refl
strncmp_complete (suc n) p q m s = elim (Bool-cases (m p == 0)) [
  | inl e ↦ ground (arith, first)
  | inr e ↦ ground (
    arith,
    first,
    strncmp_complete n (p + 1) (q + 1) m (λ i lt live.
        ground (arith, s (suc i) (omega arith) (NoNul-suc p i m (==_false _ _ e) live))),
  )
]
  where
    first : m (p + 0) ≡ m (q + 0)
    first = s 0 (omega arith) (λ j k. absurd (omega arith))

-- `strncmp` answers 0 exactly when the two strings agree in their first `n` bytes, up to and
-- including the terminator of the first.
pub strncmp-zero_iff : (n p q : ℕ) (m : Mem) → (strncmp p q n m ≡ pos 0) ↔ SameText p q n m
strncmp-zero_iff n p q m =
    (λ h i lt live. strncmp_sound n p q m i lt live h, strncmp_complete n p q m)

strlen_from_lem :
    (fuel s n k : ℕ) (m : Mem)
    → k < fuel
    → NoNul (s + n) k m
    → m (s + n + k) ≡ 0
    → strlen_from fuel s n m ≡ some (n + k)
unfolding strlen_from
strlen_from_lem zero s n k m lt live e = absurd (omega arith)
strlen_from_lem (suc fuel) s n zero m lt live e = ground arith
strlen_from_lem (suc fuel) s n (suc k) m lt live e = ground (
  arith,
  live 0,
  strlen_from_lem fuel s (n + 1) k m (omega arith) (λ j h. ground (arith, live (suc j)))
      (ground arith),
)

-- With the terminator `k` bytes on and none before it, `strlen` ends and returns `k`.
pub strlen_lem :
    (fuel s k : ℕ) (m : Mem) → k < fuel → NoNul s k m → m (s + k) ≡ 0 → strlen fuel s m ≡ some k
unfolding strlen
strlen_lem fuel s k m lt live e =
    ground (arith, strlen_from_lem fuel s 0 k m lt (λ j h. ground (arith, live j)) (ground arith))
