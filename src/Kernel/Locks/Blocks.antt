-- ===== src/Kernel/Locks/Blocks.antt =====
-- The block allocator gives back the buffers it locks.
use learn_mit_s.Common.{ℕ, zero, suc, ◌+◌, ◌/◌, ◌%◌, ◌≡◌, false, not, ltb, if_both}
use learn_mit_s.Kernel.Fs.{
  bpb, Fs, M, log_write, bzero, bblock, test_bit, take_bit, scan_bits, balloc_from, balloc,
  clear_bit, bfree,
}
use learn_mit_s.Kernel.Locks.{
  Locks, At, lock_buffer, EndsAt, Takes, Keeps, then_ends, bread_then, brelse-Takes,
}

pub bzero-Keeps : (b : ℕ) → Keeps (bzero b)
unfolding bzero log_write
bzero-Keeps b l s h =
    bread_then l l b _ s h
      λ free at. brelse-Takes b l free _ record { inodes = at.inodes; buffers = at.buffers }

-- The rest of a loop is run with the block of the bitmap released.
take_bit-Takes :
    (b bi : ℕ) (l : Locks) (s : Fs)
    → l.buffers (bblock b s) ≡ false
    → At (lock_buffer (bblock b s) l) s
    → EndsAt l (take_bit b bi s)
unfolding take_bit log_write
take_bit-Takes b bi l s free h =
    then_ends l l _ _
      (brelse-Takes (bblock b s) l free _ record { inodes = h.inodes; buffers = h.buffers })
      λ _ u at. then_ends l l (bzero (b + bi) u) _ (bzero-Keeps (b + bi) l u at) λ _ v k. k

scan_bits-Takes :
    (next : M ℕ) (r b bi : ℕ) (l : Locks) (s : Fs)
    → Takes l next l
    → l.buffers (bblock b s) ≡ false
    → At (lock_buffer (bblock b s) l) s
    → EndsAt l (scan_bits next r b bi s)
unfolding scan_bits
scan_bits-Takes next zero b bi l s n free h =
    then_ends l l _ _ (brelse-Takes (bblock b s) l free s h) λ _. n
scan_bits-Takes next (suc r) b bi l s n free h =
    if_both (EndsAt l) (not (ltb (b + bi) s.sb.size)) _ _
      (λ e. then_ends l l _ _ (brelse-Takes (bblock b s) l free s h) λ _. n)
      λ e.
        if_both (EndsAt l) (test_bit (bi % 8) (s.blocks (bblock b s) (bi / 8))) _ _
          (λ f. scan_bits-Takes next r b (bi + 1) l s n free h) λ f. take_bit-Takes b bi l s free h

balloc_from-Keeps : (fuel b : ℕ) → Keeps (balloc_from fuel b)
unfolding balloc_from
balloc_from-Keeps zero b l s h = tt
balloc_from-Keeps (suc fuel) b l s h =
    if_both (EndsAt l) (ltb b s.sb.size) _ _
      (λ e. bread_then l l (bblock b s) _ s h λ free at.
        scan_bits-Takes (balloc_from fuel (b + bpb)) bpb b 0 l _
          (balloc_from-Keeps fuel (b + bpb) l) free at)
      λ e. tt

pub balloc-Keeps : Keeps balloc
unfolding balloc
balloc-Keeps l s h = balloc_from-Keeps (s.sb.size / bpb + 2) 0 l s h

clear_bit-Takes :
    (b : ℕ) (l : Locks) (s : Fs)
    → l.buffers (bblock b s) ≡ false
    → At (lock_buffer (bblock b s) l) s
    → EndsAt l (clear_bit b s)
unfolding clear_bit log_write
clear_bit-Takes b l s free h =
    if_both (EndsAt l) (not (test_bit (b % bpb % 8) (s.blocks (bblock b s) (b % bpb / 8)))) _ _
      (λ e. tt)
      λ e. brelse-Takes (bblock b s) l free _ record { inodes = h.inodes; buffers = h.buffers }

pub bfree-Keeps : (b : ℕ) → Keeps (bfree b)
unfolding bfree
bfree-Keeps b l s h = bread_then l l (bblock b s) _ s h (clear_bit-Takes b l _)
