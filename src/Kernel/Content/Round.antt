-- ===== src/Kernel/Content/Round.antt =====
-- Bytes stored in blocks of a file: one round of `writei`.
use learn_mit_s.Common.{
  ℕ, ◌+◌, ◌-◌, ◌*◌, ◌/◌, ◌%◌, ◌≤◌, ◌<◌, ◌≡◌, refl, sym, ap, ◌∙◌, ◌≢◌, ◌⊎◌, inl, inr, true, ◌&&◌,
  arith, ltb, leb, if◌then◌else◌, Bool-cases, ℕ_discrete, update, update_self, update_ne, if-true,
  if-false,
}
use learn_mit_s.Kernel.Str.{Mem, memmove}
use learn_mit_s.Kernel.Str.Memmove.{memmove_lem}
use learn_mit_s.Kernel.Fs.{bsize, ndirect, Fs}
use learn_mit_s.Kernel.Fs.Words.{load32, load32_kept}
use learn_mit_s.Kernel.Inode.Blocks.{block_of, IsHeld}
use learn_mit_s.Kernel.Content.{area, beside, buffer_of}
use learn_mit_s.Kernel.Content.Read.{beside-buffer}

-- The part of a file between two offsets: each block of it is one that the file holds, and no other part of the
-- file, nor its list of blocks, is in it.
pub record IsOwn (s : Fs) (ip lo hi : ℕ) : Type 0 where
  pub held : (q : ℕ) → lo ≤ q → q < hi → IsHeld s ip (q / bsize)
  pub apart :
      (q q' : ℕ)
      → lo ≤ q
      → q < hi
      → lo ≤ q'
      → q' < hi
      → block_of s ip (q / bsize) ≡ block_of s ip (q' / bsize)
      → q / bsize ≡ q' / bsize
  pub no_list : (q : ℕ) → lo ≤ q → q < hi → block_of s ip (q / bsize) ≢ (s.inodes ip).addrs ndirect

-- From `s` to `t` the bytes between `lo` and `hi` come from `src` on, and no other byte of any block is changed.
pub record Wrote (s t : Fs) (ip lo hi src : ℕ) (m : Mem) : Type 0 where
  pub sb : t.sb ≡ s.sb
  pub inodes : t.inodes ≡ s.inodes
  pub held : t.held ≡ s.held
  pub bytes :
      (q : ℕ)
      → lo ≤ q
      → q < hi
      → t.blocks (block_of s ip (q / bsize)) (q % bsize) ≡ m (src + (q - lo))
  pub kept :
      (b i : ℕ)
      → ((q : ℕ) → lo ≤ q → q < hi → (block_of s ip (q / bsize) ≢ b) ⊎ (q % bsize ≢ i))
      → t.blocks b i ≡ s.blocks b i

-- The list of blocks stays, and so does which block holds what.
pub block_of-kept :
    (s t : Fs) (ip bn : ℕ)
    → (t.inodes ip).addrs ≡ (s.inodes ip).addrs
    → ((i : ℕ)
        → t.blocks ((s.inodes ip).addrs ndirect) i ≡ s.blocks ((s.inodes ip).addrs ndirect) i)
    → block_of t ip bn ≡ block_of s ip bn
block_of-kept s t ip bn e same =
    let at = (s.inodes ip).addrs ndirect in
    ap
      (λ addrs.
        if ltb bn ndirect then addrs bn else load32 (t.blocks (addrs ndirect)) (4 * (bn - ndirect)))
      e
    ∙ ap (λ w. if ltb bn ndirect then (s.inodes ip).addrs bn else w)
        (load32_kept (s.blocks at) (t.blocks at) (4 * (bn - ndirect)) (λ x l h. same x))

pub Wrote-block_of :
    {s t : Fs} {ip lo hi src : ℕ} {m : Mem} (bn : ℕ)
    → IsOwn s ip lo hi
    → Wrote s t ip lo hi src m
    → block_of t ip bn ≡ block_of s ip bn
Wrote-block_of {s = s} {t = t} {ip = ip} bn own w =
    block_of-kept s t ip bn (ap (λ f. (f ip).addrs) w.inodes)
      (λ i. w.kept ((s.inodes ip).addrs ndirect) i (λ q l h. inl (own.no_list q l h)))

-- The state after a round with `k` bytes.
abbrev pub stored : Fs → ℕ → ℕ → ℕ → ℕ → Mem → Fs
stored s ip off src k m =
    let b = block_of s ip (off / bsize) in
    record s {
      blocks =
          update s.blocks b
            (buffer_of (memmove (area + off % bsize) src k (beside m (s.blocks b))));
      logged = update s.logged b true;
    }

buffer-byte :
    (m d : Mem) (o src k i : ℕ)
    → src + k ≤ area
    → buffer_of (memmove (area + o) src k (beside m d)) i
      ≡ (if leb o i && ltb i (o + k) then m (src + (i - o)) else d i)
buffer-byte m d o src k i low =
    let all = beside m d in
    let c = leb (area + o) (area + i) && ltb (area + i) (area + o + k) in
    let c' = leb o i && ltb i (o + k) in
    let x = all (src + (area + i - (area + o))) in
    let x' = m (src + (i - o)) in
    memmove_lem (area + o) src k all (area + i) ∙ elim (Bool-cases c') [
      | inl inside ↦
          let index : src + (area + i - (area + o)) ≡ src + (i - o) = omega arith in
          if-true x (all (area + i)) (ground (arith, inside))
          ∙ ap all index
          ∙ if-true x' (d (src + (i - o) - area)) (ground (arith, inside, low))
          ∙ sym (if-true x' (d i) inside)
      | inr outside ↦
          if-false x (all (area + i)) (ground (arith, outside))
          ∙ beside-buffer m d i
          ∙ sym (if-false x' (d i) outside)
    ]

stored-byte :
    (s : Fs) (ip off src k : ℕ) (m : Mem) (i : ℕ)
    → src + k ≤ area
    → (stored s ip off src k m).blocks (block_of s ip (off / bsize)) i ≡ (
        if leb (off % bsize) i && ltb i (off % bsize + k)
        then m (src + (i - off % bsize))
        else s.blocks (block_of s ip (off / bsize)) i)
stored-byte s ip off src k m i low =
    let b = block_of s ip (off / bsize) in
    let d = s.blocks b in
    ap (λ f. f i)
      (update_self s.blocks b (buffer_of (memmove (area + off % bsize) src k (beside m d))))
    ∙ buffer-byte m d (off % bsize) src k i low

pub stored-Wrote :
    (s : Fs) (ip off src k : ℕ) (m : Mem)
    → off % bsize + k ≤ bsize
    → src + k ≤ area
    → Wrote s (stored s ip off src k m) ip off (off + k) src m
stored-Wrote s ip off src k m fits low =
    let b = block_of s ip (off / bsize) in
    let o = off % bsize in
    record {
      sb = refl;
      inodes = refl;
      held = refl;
      bytes = λ q lo hi.
          let block : q / bsize ≡ off / bsize = omega (arith, lo, hi, fits) in
          let byte : q % bsize ≡ o + (q - off) = omega (arith, lo, hi, fits) in
          let index : src + (q % bsize - o) ≡ src + (q - off) = omega (arith, byte) in
          ap (λ n. (stored s ip off src k m).blocks (block_of s ip n) (q % bsize)) block
          ∙ stored-byte s ip off src k m (q % bsize) low
          ∙ if-true (m (src + (q % bsize - o))) (s.blocks b (q % bsize))
              (ground (arith, byte, hi, lo))
          ∙ ap m index;
      kept = λ c i away. elim (ℕ_discrete b c) [
        | no ne ↦
            ap (λ f. f i)
              (update_ne s.blocks b (buffer_of (memmove (area + o) src k (beside m (s.blocks b)))) c
                ne)
        | yes same ↦ elim (Bool-cases (leb o i && ltb i (o + k))) [
          | inl inside ↦
              let q = off + (i - o) in
              let ge : o ≤ i = ground (arith, inside) in
              let lt : i < o + k = ground (arith, inside) in
              let block : q / bsize ≡ off / bsize = omega (arith, ge, lt, fits) in
              let byte : q % bsize ≡ i = omega (arith, ge, lt, fits) in
              elim (away q (omega arith) (omega (arith, ge, lt))) [
                | inl ne ↦ absurd (ne (ap (block_of s ip) block ∙ same))
                | inr ne ↦ absurd (ne byte)
              ]
          | inr outside ↦
              ap (λ c. (stored s ip off src k m).blocks c i) (sym same)
              ∙ stored-byte s ip off src k m i low
              ∙ if-false (m (src + (i - o))) (s.blocks b i) outside
              ∙ ap (λ c. s.blocks c i) same
        ]
      ];
    }
