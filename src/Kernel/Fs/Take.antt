-- ===== src/Kernel/Fs/Take.antt =====
-- What taking a block changes, and `balloc` as a whole.
use learn_mit_s.Common.{
  ℕ, ◌+◌, ◌*◌, ◌/◌, ◌%◌, ◌^◌, ◌<◌, ◌≡◌, refl, sym, ap, ap₂, ◌∙◌, fun_ext, ◌≢◌, ◌⊎◌, inl, inr, Bool,
  true, false, arith, ◌==◌, Bool-cases, ==→eq, ==_false, update, update_self, update_ne, ℕ_discrete,
  if-true,
}
use learn_mit_s.Kernel.Str.{Mem, memset}
use learn_mit_s.Kernel.Str.Copy.{memset_lem}
use learn_mit_s.Kernel.Fs.{
  Fs, done, panicked, ◌>>=◌, bind_result, bsize, bpb, brelse, log_write, bzero, bblock, test_bit,
  take_bit, balloc,
}
use learn_mit_s.Kernel.Fs.Bits.{set_self, set_other}
use learn_mit_s.Kernel.Fs.Bitmap.{used, Ready, Takes, with_held, brelse-bread}
use learn_mit_s.Kernel.Fs.Search.{Full, Chosen, balloc_from-cases}

pub brelse_locked :
    (b : ℕ) (s : Fs) (h : ℕ → Bool)
    → h b ≡ false
    → s.held ≡ update h b true
    → brelse b s ≡ done tt (record s { held = h })
unfolding brelse
brelse_locked b s h free e =
    let yes : s.held b ≡ true = ap (λ f. f b) e ∙ update_self h b true in
    let back : update s.held b false ≡ h = fun_ext (λ x. elim (Bool-cases (b == x)) [
      | inl y ↦ rw y (sym free ∙ ap h (==→eq b x y))
      | inr n ↦ rw n (ap (λ f. f x) e ∙ update_ne h b true x (==_false b x n))
    ]) in
    if-true (done tt (record s { held = update s.held b false })) panicked yes
    ∙ ap (λ f. done tt (record s { held = f })) back

abbrev pub zeroed_block : ℕ → Fs → Fs
zeroed_block c s = record s {
  blocks = update s.blocks c (memset 0 0 bsize (s.blocks c));
  logged = update s.logged c true;
}

pub bzero-done : (c : ℕ) (s : Fs) → s.held c ≡ false → bzero c s ≡ done tt (zeroed_block c s)
unfolding bzero log_write
bzero-done c s free =
    let (locked, back) = brelse-bread c s free in
    let s1 = record (with_held c true s) {
      blocks = update s.blocks c (memset 0 0 bsize (s.blocks c));
      logged = update s.logged c true;
    } in
    ap (λ r. bind_result r (λ _ t. brelse c (zeroed_block c t))) locked
    ∙ brelse_locked c s1 s.held free refl

-- The state in which the bit `j` of the bitmap block `at` is set.
abbrev pub marked_block : ℕ → ℕ → Fs → Fs
marked_block at j s = record s {
  blocks = update s.blocks at (update (s.blocks at) (j / 8) (s.blocks at (j / 8) + 2 ^ (j % 8)));
  logged = update s.logged at true;
}

take_bit-done :
    (b j : ℕ) (s : Fs)
    → s.held (bblock b s) ≡ false
    → s.held (b + j) ≡ false
    → take_bit b j (with_held (bblock b s) true s)
      ≡ done (b + j) (zeroed_block (b + j) (marked_block (bblock b s) j s))
unfolding take_bit log_write
take_bit-done b j s free free' =
    let at = bblock b s in
    ap (λ r. bind_result r (λ _. bzero (b + j) >>= λ _. λ t. done (b + j) t))
      (brelse_locked at (with_held at true (marked_block at j s)) s.held free refl)
    ∙ ap (λ r. bind_result r (λ _ t. done (b + j) t))
        (bzero-done (b + j) (marked_block at j s) free')

-- One byte of the bitmap changed.
abbrev pub flip : (ℕ → Mem) → ℕ → ℕ → ℕ → ℕ → Mem
flip m at i v = update m at (update (m at) i v)

flip_self : (m : ℕ → Mem) (at i v a k : ℕ) → a ≡ at → k ≡ i → flip m at i v a k ≡ v
flip_self m at i v a k e f = ground (arith, e, f)

flip_other : (m : ℕ → Mem) (at i v a k : ℕ) → (a ≢ at) ⊎ (k ≢ i) → flip m at i v a k ≡ m a k
flip_other m at i v a k h = ground (arith, h)

-- The bit of `c` in its byte, as the code finds it.
pub bit-used :
    (c : ℕ) (s : Fs) → test_bit (c % bpb % 8) (s.blocks (bblock c s) (c % bpb / 8)) ≡ used s c
bit-used c s =
    let e : c % bpb % 8 ≡ c % 8 = omega arith in
    ap (λ k. test_bit k (s.blocks (bblock c s) (c % bpb / 8))) e

-- The byte with the bit of `c` now has the value `v`.
module _ (c v : ℕ) (s : Fs) where
  pub flipped_self :
      test_bit (c % 8) (flip s.blocks (bblock c s) (c % bpb / 8) v (bblock c s) (c % bpb / 8))
      ≡ test_bit (c % bpb % 8) v
  flipped_self =
      let e : c % 8 ≡ c % bpb % 8 = omega arith in
      ap₂ test_bit e
        (flip_self s.blocks (bblock c s) (c % bpb / 8) v (bblock c s) (c % bpb / 8) refl refl)

  pub flipped_other :
      (x : ℕ)
      → x ≢ c
      → ((k : ℕ)
          → c % bpb % 8 ≢ k
          → test_bit k v ≡ test_bit k (s.blocks (bblock c s) (c % bpb / 8)))
      → test_bit (x % 8) (flip s.blocks (bblock c s) (c % bpb / 8) v (bblock x s) (x % bpb / 8))
        ≡ used s x
  flipped_other x ne same = elim (ℕ_discrete (bblock x s) (bblock c s)) [
    | no far ↦
        ap (test_bit (x % 8))
          (flip_other s.blocks (bblock c s) (c % bpb / 8) v (bblock x s) (x % bpb / 8) (inl far))
    | yes near ↦ elim (ℕ_discrete (x % bpb / 8) (c % bpb / 8)) [
      | no away ↦
          ap (test_bit (x % 8))
            (flip_other s.blocks (bblock c s) (c % bpb / 8) v (bblock x s) (x % bpb / 8) (inr away))
      | yes here ↦
          let apart : c % bpb % 8 ≢ x % 8 = λ e. ne (omega (arith, near, here, e)) in
          ap (test_bit (x % 8))
            (flip_self s.blocks (bblock c s) (c % bpb / 8) v (bblock x s) (x % bpb / 8) near here)
          ∙ same (x % 8) apart
          ∙ ap₂ (λ a i. test_bit (x % 8) (s.blocks a i)) (sym near) (sym here)
    ]
  ]

-- The block taken holds no part of the bitmap.
module _ (c : ℕ) (s : Fs) (lt : c < s.sb.size) (free : used s c ≡ false)
    (bitmap_used : (c : ℕ) → c < s.sb.size → used s (bblock c s) ≡ true) where
  abbrev at : ℕ
  at = bblock c s

  abbrev byte : ℕ
  byte = s.blocks at (c % bpb / 8)

  abbrev m : ℕ → Mem
  m = flip s.blocks at (c % bpb / 8) (byte + 2 ^ (c % bpb % 8))

  abbrev t : Fs
  t = zeroed_block c (marked_block at (c % bpb) s)

  not_bitmap : (x : ℕ) → x < s.sb.size → c ≢ bblock x s
  not_bitmap x h e =
      let no : true ≡ false = sym (bitmap_used x h) ∙ ap (used s) (sym e) ∙ free in
      ground (arith, no)

  -- Bits in the state before `c` is zeroed.
  marked_bits : (x : ℕ) → x < s.sb.size → used t x ≡ test_bit (x % 8) (m (bblock x s) (x % bpb / 8))
  marked_bits x h =
      ap (λ f. test_bit (x % 8) (f (x % bpb / 8)))
        (update_ne m c (memset 0 0 bsize (m c)) (bblock x s) (not_bitmap x h))

  takes : Takes c s t
  takes =
      let clear = bit-used c s ∙ free in
      let v = byte + 2 ^ (c % bpb % 8) in
      record {
        sb = refl;
        inodes = refl;
        held = λ x. refl;
        marked = marked_bits c lt ∙ flipped_self c v s ∙ set_self (c % bpb % 8) byte clear;
        others = λ x ne h.
            marked_bits x h
            ∙ flipped_other c v s x ne (λ k ne'. set_other (c % bpb % 8) k byte ne' clear);
        zeroed = λ i h.
            ap (λ f. f i) (update_self m c (memset 0 0 bsize (m c)))
            ∙ memset_lem 0 0 bsize (m c) i
            ∙ ground (arith, h);
        kept = λ x ne ne'.
            update_ne m c (memset 0 0 bsize (m c)) x (λ e. ne (sym e))
            ∙ update_ne s.blocks at (update (s.blocks at) (c % bpb / 8) v) x (λ e. ne' (sym e));
      }

-- With the bitmap's blocks marked as used, and their buffers and those of free blocks not locked, `balloc`
-- panics only when every block is in use; else it takes the first free block, marks it in the bitmap,
-- zeroes it, and changes no other bit and no block but the bitmap's.
pub balloc-Takes :
    (s : Fs)
    → Ready s
    → (Full s 0 × (balloc s ≡ panicked))
      ⊎ ((c : ℕ) × (t : Fs) × Chosen s 0 c × (balloc s ≡ done c t) × Takes c s t)
unfolding balloc
balloc-Takes s ok =
    elim (balloc_from-cases (s.sb.size / bpb + 2) 0 s ok (omega arith) (omega arith)) [
      | inl full ↦ inl full
      | inr (p, j, small, (lo, lt, free, before), e) ↦
          let c = p * bpb + j in
          let here : bblock (p * bpb) s ≡ bblock c s = omega (arith, small) in
          let index : j ≡ c % bpb = omega (arith, small) in
          let unheld : s.held (bblock (p * bpb) s) ≡ false =
            ap s.held here ∙ ok.bitmap_unheld c lt in
          let taken = take_bit-done (p * bpb) j s unheld (ok.free_unheld c lt free) in
          let same = ap₂ (λ a i. zeroed_block c (marked_block a i s)) here index in
          inr (
            c,
            zeroed_block c (marked_block (bblock c s) (c % bpb) s),
            (lo, lt, free, before),
            e ∙ taken ∙ ap (done c) same,
            takes c s lt free ok.bitmap_used,
          )
    ]
