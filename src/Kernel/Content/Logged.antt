-- ===== src/Kernel/Content/Logged.antt =====
-- The blocks that `writei` gives to `log_write`.
use learn_mit_s.Common.{
  ℕ, zero, suc, ◌+◌, ◌-◌, ◌/◌, ◌%◌, ◌≤◌, ◌<◌, ◌≡◌, refl, ap, ap₂, ◌∙◌, sym, min, true, List, [],
  ◌∷◌, ◌++◌, Bool, update, length, arith,
}
use learn_mit_s.Kernel.Fs.{bsize, Fs}
use learn_mit_s.Kernel.Inode.Blocks.{block_of}

-- The marks after `log_write` of each block of the list.
abbrev pub mark_all : List ℕ → (ℕ → Bool) → ℕ → Bool
mark_all [] logged = logged
mark_all (b ∷ bs) logged = mark_all bs (update logged b true)

pub mark_all-append :
    (bs cs : List ℕ) (logged : ℕ → Bool)
    → mark_all (bs ++ cs) logged ≡ mark_all cs (mark_all bs logged)
mark_all-append [] cs logged = refl
mark_all-append (b ∷ bs) cs logged = mark_all-append bs cs (update logged b true)

-- The blocks of a file from its block `bn` on.
abbrev pub blocks_from : Fs → ℕ → ℕ → ℕ → List ℕ
blocks_from s ip bn zero = []
blocks_from s ip bn (suc k) = block_of s ip bn ∷ blocks_from s ip (bn + 1) k

-- How many blocks `n` bytes from the offset `off` on lie in.
abbrev pub span : ℕ → ℕ → ℕ
span off zero = 0
span off (suc n) = (off % bsize + n) / bsize + 1

-- The blocks that these bytes lie in.
abbrev pub blocks_of : Fs → ℕ → ℕ → ℕ → List ℕ
blocks_of s ip off n = blocks_from s ip (off / bsize) (span off n)

length-blocks_from : (s : Fs) (ip bn k : ℕ) → length (blocks_from s ip bn k) ≡ k
length-blocks_from s ip bn zero = refl
length-blocks_from s ip bn (suc k) = omega (arith, length-blocks_from s ip (bn + 1) k)

span-le : (off n : ℕ) → span off n ≤ n / bsize + 2
span-le off zero = omega arith
span-le off (suc n) = omega arith

pub length-blocks_of : (s : Fs) (ip off n : ℕ) → length (blocks_of s ip off n) ≤ n / bsize + 2
length-blocks_of s ip off n =
    omega (arith, length-blocks_from s ip (off / bsize) (span off n), span-le off n)

blocks_from_same :
    (s t : Fs) (ip bn k : ℕ)
    → ((x : ℕ) → block_of t ip x ≡ block_of s ip x)
    → blocks_from t ip bn k ≡ blocks_from s ip bn k
blocks_from_same s t ip bn zero same = refl
blocks_from_same s t ip bn (suc k) same =
    ap₂ ◌∷◌ (same bn) (blocks_from_same s t ip (bn + 1) k same)

span_pos : (off n : ℕ) → 0 < n → span off n ≡ (off % bsize + n - 1) / bsize + 1
span_pos off zero pos = absurd (omega (arith, pos))
span_pos off (suc n) pos = omega arith

-- Where the first round takes `k` bytes, and `r` are left.
span_step :
    (s : Fs) (ip off k r : ℕ)
    → 0 < k
    → k ≡ min (k + r) (bsize - off % bsize)
    → blocks_of s ip off (k + r) ≡ block_of s ip (off / bsize) ∷ blocks_of s ip (off + k) r
span_step s ip off k zero pos e =
    let count : span off (k + 0) ≡ 1 =
      omega (arith, span_pos off (k + 0) (omega (arith, pos)), e) in
    ap (blocks_from s ip (off / bsize)) count
span_step s ip off k (suc r) pos e =
    let count : span off (k + suc r) ≡ suc (span (off + k) (suc r)) =
      omega (arith, span_pos off (k + suc r) (omega arith), e, pos) in
    let next : off / bsize + 1 ≡ (off + k) / bsize = omega (arith, e) in
    ap (blocks_from s ip (off / bsize)) count
    ∙ ap (λ bn. block_of s ip (off / bsize) ∷ blocks_from s ip bn (span (off + k) (suc r))) next

-- From `s` to `t` the blocks that the `n` bytes from `off` on lie in are marked, and no other.
abbrev pub Logs : Fs → Fs → ℕ → ℕ → ℕ → Type 0
Logs s t ip off n = t.logged ≡ mark_all (blocks_of s ip off n) s.logged

pub no_bytes-Logs : (s : Fs) (ip off n : ℕ) → n ≡ 0 → Logs s s ip off n
no_bytes-Logs s ip off n e = sym (ap (λ k. mark_all (blocks_of s ip off k) s.logged) e)

-- A round of `k` bytes, and the rounds after it.
pub Logs-round :
    (s s1 t : Fs) (ip off k n : ℕ)
    → 0 < n
    → k ≡ min n (bsize - off % bsize)
    → s1.logged ≡ update s.logged (block_of s ip (off / bsize)) true
    → ((x : ℕ) → block_of s1 ip x ≡ block_of s ip x)
    → Logs s1 t ip (off + k) (n - k)
    → Logs s t ip off n
Logs-round s s1 t ip off k n pos e first same l =
    let at = (off + k) / bsize in
    let count = span (off + k) (n - k) in
    let split : k + (n - k) ≡ n = omega (arith, e) in
    l
    ∙ ap₂ mark_all (blocks_from_same s s1 ip at count same) first
    ∙ ap (λ bs. mark_all bs s.logged)
        (sym (
            span_step s ip off k (n - k) (omega (arith, e, pos))
              (e ∙ ap (λ x. min x (bsize - off % bsize)) (sym split)))
          ∙ ap (blocks_of s ip off) split)
