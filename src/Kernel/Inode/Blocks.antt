-- ===== src/Kernel/Inode/Blocks.antt =====
-- Which block holds a part of a file, and `bmap` where there is one.
use learn_mit_s.Common.{
  ℕ, ◌-◌, ◌*◌, ◌≤◌, ◌<◌, ◌≡◌, sym, ap, ◌∙◌, ◌≢◌, inl, inr, true, false, arith, ltb, if◌then◌else◌,
  Bool-cases, ==_ne, if-true, if-false,
}
use learn_mit_s.Kernel.Fs.{
  ndirect, nindirect, maxfile, Fs, done, M, bind_result, ◌>>=◌, ◌>>◌, pure, panic, bread, brelse,
}
use learn_mit_s.Kernel.Fs.Words.{load32}
use learn_mit_s.Kernel.Fs.Bitmap.{with_held, brelse-bread}
use learn_mit_s.Kernel.Inode.{ensure_addr, ensure_entry, bmap_indirect, bmap}

-- The block `bn` of a file, 0 where it has none.
abbrev pub block_of : Fs → ℕ → ℕ → ℕ
block_of s ip bn =
    let addrs = (s.inodes ip).addrs in
    if ltb bn ndirect then addrs bn else load32 (s.blocks (addrs ndirect)) (4 * (bn - ndirect))

-- A block that the file holds, whose buffer is not locked.
pub record IsHeld (s : Fs) (ip bn : ℕ) : Type 0 where
  pub small : bn < maxfile
  pub nonzero : block_of s ip bn ≢ 0
  pub unheld : s.held (block_of s ip bn) ≡ false
  pub indirect :
      ndirect ≤ bn
      → ((s.inodes ip).addrs ndirect ≢ 0) × (s.held ((s.inodes ip).addrs ndirect) ≡ false)

ensure_addr-done :
    (ip k : ℕ) (s : Fs)
    → (s.inodes ip).addrs k ≢ 0
    → ensure_addr ip k s ≡ done ((s.inodes ip).addrs k) s
unfolding ensure_addr
ensure_addr-done ip k s ne =
    if-false _ (done ((s.inodes ip).addrs k) s) (==_ne ((s.inodes ip).addrs k) 0 ne)

ensure_entry-done :
    (at k : ℕ) (s : Fs)
    → load32 (s.blocks at) (4 * k) ≢ 0
    → ensure_entry at k s ≡ done (load32 (s.blocks at) (4 * k)) s
unfolding ensure_entry
ensure_entry-done at k s ne =
    if-false _ (done (load32 (s.blocks at) (4 * k)) s) (==_ne (load32 (s.blocks at) (4 * k)) 0 ne)

bmap_indirect-done :
    (ip k : ℕ) (s : Fs)
    → (s.inodes ip).addrs ndirect ≢ 0
    → s.held ((s.inodes ip).addrs ndirect) ≡ false
    → load32 (s.blocks ((s.inodes ip).addrs ndirect)) (4 * k) ≢ 0
    → bmap_indirect ip k s ≡ done (load32 (s.blocks ((s.inodes ip).addrs ndirect)) (4 * k)) s
unfolding bmap_indirect
bmap_indirect-done ip k s ne unheld ne' =
    let at = (s.inodes ip).addrs ndirect in
    let addr = load32 (s.blocks at) (4 * k) in
    let (locked, back) = brelse-bread at s unheld in
    let unlock : ℕ → M ℕ → M ℕ = λ at rest. brelse at >> rest in
    let entry : ℕ → M ℕ = λ at. ensure_entry at k >>= λ a. unlock at (pure a) in
    ap (λ r. bind_result r (λ at. bread at >> entry at)) (ensure_addr-done ip ndirect s ne)
    ∙ ap (λ r. bind_result r (λ _. entry at)) locked
    ∙ ap (λ r. bind_result r (λ a. unlock at (pure a)))
        (ensure_entry-done at k (with_held at true s) ne')
    ∙ ap (λ r. bind_result r (λ _. pure addr)) back

-- `bmap` of a block that the file holds finds it and changes nothing.
pub bmap-IsHeld : (ip bn : ℕ) (s : Fs) → IsHeld s ip bn → bmap ip bn s ≡ done (block_of s ip bn) s
unfolding bmap
bmap-IsHeld ip bn s h =
    let addrs = (s.inodes ip).addrs in
    let entry = load32 (s.blocks (addrs ndirect)) (4 * (bn - ndirect)) in
    elim (Bool-cases (ltb bn ndirect)) [
      | inl direct ↦
          let same : block_of s ip bn ≡ addrs bn = if-true (addrs bn) entry direct in
          ap (λ f. f s) (if-true (ensure_addr ip bn) _ direct)
          ∙ ensure_addr-done ip bn s (λ e. h.nonzero (same ∙ e))
          ∙ ap (λ a. done a s) (sym same)
      | inr far ↦
          let same : block_of s ip bn ≡ entry = if-false (addrs bn) entry far in
          let ge : ndirect ≤ bn = ground (arith, far) in
          let (ne, unheld) = h.indirect ge in
          let lt = h.small in
          let fits : ltb (bn - ndirect) nindirect ≡ true = ground (arith, ge, lt) in
          ap (λ f. f s) (if-false (ensure_addr ip bn) _ far)
          ∙ ap (λ f. f s) (if-true (bmap_indirect ip (bn - ndirect)) panic fits)
          ∙ bmap_indirect-done ip (bn - ndirect) s ne unheld (λ e. h.nonzero (same ∙ e))
          ∙ ap (λ a. done a s) (sym same)
    ]
