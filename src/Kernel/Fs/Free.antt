-- ===== src/Kernel/Fs/Free.antt =====
-- `bfree`, and a block taken and given back.
use learn_mit_s.Common.{
  ℕ, ◌+◌, ◌-◌, ◌/◌, ◌%◌, ◌^◌, ◌<◌, ◌≡◌, refl, sym, ap, ap₂, ◌∙◌, ◌≢◌, ◌⊎◌, inl, inr, true, false,
  not, arith, if◌then◌else◌, Bool-cases, update, update_ne, ℕ_discrete,
}
use learn_mit_s.Kernel.Fs.{
  Fs, done, panicked, bind_result, bpb, log_write, bblock, clear_bit, bfree, balloc,
}
use learn_mit_s.Kernel.Fs.Bits.{clear_self, clear_other}
use learn_mit_s.Kernel.Fs.Bitmap.{used, Ready, Takes, with_held, brelse-bread}
use learn_mit_s.Kernel.Fs.Take.{
  brelse_locked, flip, bit-used, flipped_self, flipped_other, balloc-Takes,
}

-- From `s` to `t` the block `c` is given back.
pub record Frees (c : ℕ) (s t : Fs) : Type 0 where
  pub sb : t.sb ≡ s.sb
  pub inodes : t.inodes ≡ s.inodes
  pub held : (x : ℕ) → t.held x ≡ s.held x
  pub cleared : used t c ≡ false
  pub others : (x : ℕ) → x ≢ c → used t x ≡ used s x
  pub kept : (x : ℕ) → x ≢ bblock c s → t.blocks x ≡ s.blocks x

-- The state in which the bit of `c` is clear.
abbrev pub cleared_block : ℕ → Fs → Fs
cleared_block c s = record s {
  blocks =
      flip s.blocks (bblock c s) (c % bpb / 8)
        (s.blocks (bblock c s) (c % bpb / 8) - 2 ^ (c % bpb % 8));
  logged = update s.logged (bblock c s) true;
}

bfree-done :
    (c : ℕ) (s : Fs)
    → s.held (bblock c s) ≡ false
    → bfree c s ≡ (if not (used s c) then panicked else done tt (cleared_block c s))
unfolding bfree clear_bit log_write
bfree-done c s unheld =
    let at = bblock c s in
    let (locked, back) = brelse-bread at s unheld in
    let s1 = with_held at true (cleared_block c s) in
    ap (λ r. bind_result r (λ _. clear_bit c)) locked
    ∙ ap₂ (λ b r. if not b then panicked else r) (bit-used c s)
        (brelse_locked at s1 s.held unheld refl)

pub bfree-Frees :
    (c : ℕ) (s : Fs)
    → s.held (bblock c s) ≡ false
    → ((used s c ≡ false) × (bfree c s ≡ panicked))
      ⊎ ((t : Fs) × (used s c ≡ true) × (bfree c s ≡ done tt t) × Frees c s t)
bfree-Frees c s unheld =
    let t = cleared_block c s in
    let run = bfree-done c s unheld in
    let byte = s.blocks (bblock c s) (c % bpb / 8) in
    let v = byte - 2 ^ (c % bpb % 8) in
    elim (Bool-cases (used s c)) [
      | inr free ↦ inl (free, run ∙ ap (λ b. if not b then panicked else done tt t) free)
      | inl busy ↦
          let set = bit-used c s ∙ busy in
          inr (
            t,
            busy,
            run ∙ ap (λ b. if not b then panicked else done tt t) busy,
            record {
              sb = refl;
              inodes = refl;
              held = λ x. refl;
              cleared = flipped_self c v s ∙ clear_self (c % bpb % 8) byte set;
              others = λ x ne.
                  flipped_other c v s x ne (λ k ne'. clear_other (c % bpb % 8) k byte ne' set);
              kept = λ x ne.
                  update_ne s.blocks (bblock c s) (update (s.blocks (bblock c s)) (c % bpb / 8) v) x
                    (λ e. ne (sym e));
            },
          )
    ]

-- The same bitmap's block, whatever the call.
same_bblock : (s t : Fs) → t.sb ≡ s.sb → (x : ℕ) → bblock x t ≡ bblock x s
same_bblock s t e x = ap (λ sb. x / bpb + sb.bmapstart) e

below : (s t : Fs) → t.sb ≡ s.sb → (x : ℕ) → x < t.sb.size → x < s.sb.size
below s t e x lt = let same = ap (λ sb. sb.size) e in omega (arith, lt, same)

-- Between calls again.
pub Takes-Ready : (c : ℕ) (s t : Fs) → Ready s → used s c ≡ false → Takes c s t → Ready t
Takes-Ready c s t ok free d = record {
  bitmap_below = λ x lt.
      let same = same_bblock s t d.sb x in
      let size = ap (λ sb. sb.size) d.sb in
      let h = ok.bitmap_below x (below s t d.sb x lt) in omega (arith, same, size, h);
  bitmap_used = λ x lt.
      let h = below s t d.sb x lt in
      let ne : bblock x s ≢ c = λ e.
        let no : true ≡ false = sym (ok.bitmap_used x h) ∙ ap (used s) e ∙ free in
        ground (arith, no) in
      ap (used t) (same_bblock s t d.sb x)
      ∙ d.others (bblock x s) ne (ok.bitmap_below x h)
      ∙ ok.bitmap_used x h;
  bitmap_unheld = λ x lt.
      d.held (bblock x t)
      ∙ ap s.held (same_bblock s t d.sb x)
      ∙ ok.bitmap_unheld x (below s t d.sb x lt);
  free_unheld = λ x lt e.
      let h = below s t d.sb x lt in
      let ne : x ≢ c =
        λ q. let no : true ≡ false = sym d.marked ∙ ap (used t) (sym q) ∙ e in ground (arith, no) in
      d.held x ∙ ok.free_unheld x h (sym (d.others x ne h) ∙ e);
}

-- With the bitmap's blocks marked as used, and their buffers and those of free blocks not locked: where a block
-- is free, `balloc` returns one and `bfree` takes it back. Every bit of the bitmap is then again as it was, and
-- in between the allocator is ready for another call.
pub bfree-balloc :
    (s : Fs) (x : ℕ)
    → Ready s
    → x < s.sb.size
    → used s x ≡ false
    → (c : ℕ) × (t u : Fs) × (balloc s ≡ done c t)
      × Ready t
      × (bfree c t ≡ done tt u)
      × ((y : ℕ) → y < s.sb.size → used u y ≡ used s y)
bfree-balloc s x ok lt free = elim (balloc-Takes s ok) [
  | inl (full, _) ↦
      let no : true ≡ false = sym (full x (omega arith) lt) ∙ free in absurd (ground (arith, no))
  | inr (c, t, (_, inside, was_free, _), e, d) ↦
      let unheld : t.held (bblock c t) ≡ false =
        d.held (bblock c t) ∙ ap s.held (same_bblock s t d.sb c) ∙ ok.bitmap_unheld c inside in
      elim (bfree-Frees c t unheld) [
        | inl (clear, _) ↦ absurd (ground (arith, (sym d.marked ∙ clear)))
        | inr (u, _, e', f) ↦ (
          c,
          t,
          u,
          e,
          Takes-Ready c s t ok was_free d,
          e',
          λ y h. elim (ℕ_discrete y c) [
            | yes same ↦ ap (used u) same ∙ f.cleared ∙ sym was_free ∙ ap (used s) (sym same)
            | no ne ↦ f.others y ne ∙ d.others y ne h
          ],
        )
      ]
]
