-- ===== src/Kernel/Inode/Alloc.antt =====
-- `bmap` where the file has no block: it takes one.
use learn_mit_s.Common.{
  ℕ, ◌-◌, ◌*◌, ◌<◌, ◌≡◌, sym, ap, ◌∙◌, ◌≢◌, ◌⊎◌, inl, inr, true, ltb, ◌==◌, if◌then◌else◌, lt→ltb,
  update, update_self, update_ne, if-true,
}
use learn_mit_s.Kernel.Fs.{
  bsize, ndirect, nindirect, Inode, Fs, done, panicked, M, bind_result, ◌>>◌, pure, panic, bblock,
  balloc,
}
use learn_mit_s.Kernel.Fs.Words.{load32}
use learn_mit_s.Kernel.Fs.Bitmap.{used, Ready}
use learn_mit_s.Kernel.Fs.Search.{Full, Chosen}
use learn_mit_s.Kernel.Fs.Take.{balloc-Takes}
use learn_mit_s.Kernel.Fs.Free.{Takes-Ready}
use learn_mit_s.Kernel.Inode.{set_inode, ensure_addr, bmap_indirect, bmap}
use learn_mit_s.Kernel.Inode.Blocks.{block_of}

-- From `s` to `u` the file has got the block `c` as its block `bn`.
pub record Grown (s u : Fs) (ip bn c : ℕ) : Type 0 where
  pub placed : block_of u ip bn ≡ c
  pub list : (j : ℕ) → j ≢ bn → (u.inodes ip).addrs j ≡ (s.inodes ip).addrs j
  pub inodes : (j : ℕ) → j ≢ ip → u.inodes j ≡ s.inodes j
  pub marked : used u c ≡ true
  pub bits : (x : ℕ) → x ≢ c → x < s.sb.size → used u x ≡ used s x
  pub zeroed : (i : ℕ) → i < bsize → u.blocks c i ≡ 0
  pub kept : (x : ℕ) → x ≢ c → x ≢ bblock c s → u.blocks x ≡ s.blocks x

abbrev with_addr : ℕ → ℕ → Inode → Inode
with_addr bn c x = record x { addrs = update x.addrs bn c }

abbrev placed_in : ℕ → ℕ → ℕ → Fs → Fs
placed_in ip bn c t = record t { inodes = update t.inodes ip (with_addr bn c (t.inodes ip)) }

ensure_addr-hole :
    (ip bn : ℕ) (s : Fs)
    → (s.inodes ip).addrs bn ≡ 0
    → ensure_addr ip bn s ≡ bind_result (balloc s) (λ b. set_inode ip (with_addr bn b) >> pure b)
unfolding ensure_addr
ensure_addr-hole ip bn s e = if-true _ (done ((s.inodes ip).addrs bn) s) (ap (λ a. a == 0) e)

-- `bmap` of one of the first 12 blocks, where the file has none, with the bitmap's blocks marked as used, and
-- their buffers and those of free blocks not locked: it panics only when no block is free. Else it answers the
-- first free block, which is zeroed, marked in the bitmap and entered in the inode; no other entry, inode, bit
-- or block changes, but the bitmap's block, and the allocator is ready for another call.
pub bmap-Grown :
    (ip bn : ℕ) (s : Fs)
    → bn < ndirect
    → (s.inodes ip).addrs bn ≡ 0
    → Ready s
    → (Full s 0 × (bmap ip bn s ≡ panicked))
      ⊎ ((c : ℕ) × (u : Fs) × (bmap ip bn s ≡ done c u)
          × Chosen s 0 c
          × Grown s u ip bn c
          × Ready u)
unfolding bmap
bmap-Grown ip bn s lt hole ok =
    let direct : ltb bn ndirect ≡ true = lt→ltb bn ndirect lt in
    let enter : ℕ → M ℕ = λ b. set_inode ip (with_addr bn b) >> pure b in
    let run : bmap ip bn s ≡ bind_result (balloc s) enter =
      ap (λ f. f s)
        (if-true (ensure_addr ip bn)
          (if ltb (bn - ndirect) nindirect then bmap_indirect ip (bn - ndirect) else panic) direct)
      ∙ ensure_addr-hole ip bn s hole in
    elim (balloc-Takes s ok) [
      | inl (full, e) ↦ inl (full, run ∙ ap (λ r. bind_result r enter) e)
      | inr (c, t, chosen, e, d) ↦
          let u = placed_in ip bn c t in
          let at = update_self t.inodes ip (with_addr bn c (t.inodes ip)) in
          let old = ap (λ f. (f ip).addrs) d.inodes in
          let ready = Takes-Ready c s t ok chosen.2 d in
          inr (
            c,
            u,
            run ∙ ap (λ r. bind_result r enter) e,
            chosen,
            record {
              placed =
                  if-true ((u.inodes ip).addrs bn)
                    (load32 (u.blocks ((u.inodes ip).addrs ndirect)) (4 * (bn - ndirect))) direct
                  ∙ ap (λ x. x.addrs bn) at
                  ∙ update_self (t.inodes ip).addrs bn c;
              list = λ j ne.
                  ap (λ x. x.addrs j) at
                  ∙ update_ne (t.inodes ip).addrs bn c j (λ q. ne (sym q))
                  ∙ ap (λ f. f j) old;
              inodes = λ j ne.
                  update_ne t.inodes ip (with_addr bn c (t.inodes ip)) j (λ q. ne (sym q))
                  ∙ ap (λ f. f j) d.inodes;
              marked = d.marked;
              bits = d.others;
              zeroed = d.zeroed;
              kept = d.kept;
            },
            record {
              bitmap_below = ready.bitmap_below;
              bitmap_used = ready.bitmap_used;
              bitmap_unheld = ready.bitmap_unheld;
              free_unheld = ready.free_unheld;
            },
          )
    ]
