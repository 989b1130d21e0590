-- ===== src/Kernel/Log/Refcount.antt =====
-- The use counts of the buffers that installing a transaction touches.
use learn_mit_s.Common.{
  ℕ, zero, suc, ◌+◌, ◌-◌, ◌^◌, ◌≤◌, ◌<◌, ◌≡◌, refl, sym, ap, ◌∙◌, ◌≢◌, arith, ℕ_discrete, update,
}
use mathlib.Core.Path.{subst}
use learn_mit_s.Kernel.Blocks.{
  Block, Io, reboot, incr, decr, bread, brelse, bunpin, set_data, bwrite, written,
}
use learn_mit_s.Kernel.Log.{
  LogHeader, Log, rounds, header, install_from, install_trans, read_head, write_head, cleared,
  recover_from_log,
}
use learn_mit_s.Kernel.Log.Loops.{slot}
use learn_mit_s.Kernel.Log.Recovery.{
  Outside, Fits, rounds_small, loaded, read_head-log, count-lem, block-lem, Outside-ne,
}

written-refcnt : (b k : ℕ) (s : Io) → (written b k s).refcnt ≡ s.refcnt
unfolding written
written-refcnt b zero s = refl
written-refcnt b (suc k) s = refl

-- The counts after one round of `install_trans`.
abbrev round : ℕ → ℕ → (ℕ → ℕ) → ℕ → ℕ
round lbuf dbuf f =
    let f1 = update f lbuf (incr (f lbuf)) in
    let f2 = update f1 dbuf (incr (f1 dbuf)) in
    let f3 = update f2 dbuf (decr (f2 dbuf)) in
    let f4 = update f3 lbuf (decr (f3 lbuf)) in update f4 dbuf (decr (f4 dbuf))

round-dbuf : (l d : ℕ) (f : ℕ → ℕ) → l ≢ d → f d < 2 ^ 32 → round l d f d ≡ decr (f d)
round-dbuf l d f ne h = ground arith

round-other : (l d x : ℕ) (f : ℕ → ℕ) → l ≢ d → l ≢ x → d ≢ x → round l d f x ≡ f x
round-other l d x f ne a b = ground arith

-- The part of a round behind the write.
abbrev released : ℕ → ℕ → (ℕ → ℕ) → ℕ → ℕ
released lbuf dbuf f2 =
    let f3 = update f2 dbuf (decr (f2 dbuf)) in
    let f4 = update f3 lbuf (decr (f3 lbuf)) in update f4 dbuf (decr (f4 dbuf))

-- What `r` rounds do to the counts.
abbrev counts : ℕ → ℕ → Log → (ℕ → ℕ) → ℕ → ℕ
counts zero tail lg f = f
counts (suc r) tail lg f = counts r (tail + 1) lg (round (slot lg tail) (lg.lh.block tail) f)

install_from-refcnt :
    (r tail : ℕ) (lg : Log) (s : Io) → (install_from r tail lg s).refcnt ≡ counts r tail lg s.refcnt
unfolding install_from bread brelse bunpin set_data bwrite
install_from-refcnt zero tail lg s = refl
install_from-refcnt (suc r) tail lg s =
    install_from-refcnt r (tail + 1) lg _
    ∙ ap (λ f. counts r (tail + 1) lg (released (slot lg tail) (lg.lh.block tail) f))
        (written-refcnt (lg.lh.block tail) s.power _)

counts-other :
    (r tail b : ℕ) (lg : Log) (f : ℕ → ℕ)
    → ((i : ℕ)
        → tail ≤ i
        → i < tail + r
        → (slot lg i ≢ lg.lh.block i) × (slot lg i ≢ b) × (lg.lh.block i ≢ b))
    → counts r tail lg f b ≡ f b
counts-other zero tail b lg f h = refl
counts-other (suc r) tail b lg f h =
    let (p, q, t) = h tail (omega arith) (omega arith) in
    counts-other r (tail + 1) b lg _ (λ i lo hi. h i (omega arith) (omega arith))
    ∙ round-other (slot lg tail) (lg.lh.block tail) b f p q t

-- No block is named twice among the first `n`.
abbrev pub Distinct : ℕ → (ℕ → ℕ) → Type 0
Distinct n block = (i j : ℕ) → i < n → j < n → block i ≡ block j → i ≡ j

counts-once :
    (r tail i : ℕ) (lg : Log) (f : ℕ → ℕ)
    → Fits lg
    → Distinct lg.lh.n lg.lh.block
    → tail + r ≡ lg.lh.n
    → tail ≤ i
    → i < lg.lh.n
    → f (lg.lh.block i) < 2 ^ 32
    → counts r tail lg f (lg.lh.block i) ≡ decr (f (lg.lh.block i))
counts-once zero tail i lg f fits d e lo hi small = absurd (omega arith)
counts-once (suc r) tail i lg f fits d e lo hi small = elim (ℕ_discrete tail i) [
  | yes here ↦
      let p = apart tail i (omega arith) hi in
      let q = apart tail tail (omega arith) (omega arith) in
      counts-other r (tail + 1) (lg.lh.block i) lg _ (λ j a b. (
        apart j j (omega arith) (omega arith),
        apart j i (omega arith) hi,
        λ same. omega (arith, d j i (omega arith) hi same),
      ))
      ∙ subst
          (λ k.
            round (slot lg tail) (lg.lh.block tail) f (lg.lh.block k) ≡ decr (f (lg.lh.block k)))
          here
          (round-dbuf (slot lg tail) (lg.lh.block tail) f q
            (subst (λ k. f (lg.lh.block k) < 2 ^ 32) (sym here) small))
  | no ne ↦
      let keep : round (slot lg tail) (lg.lh.block tail) f (lg.lh.block i) ≡ f (lg.lh.block i) =
        round-other (slot lg tail) (lg.lh.block tail) (lg.lh.block i) f
          (apart tail tail (omega arith) (omega arith)) (apart tail i (omega arith) hi)
          (λ same. ne (d tail i (omega arith) hi same)) in
      counts-once r (tail + 1) i lg _ fits d (omega arith) (omega arith) hi (rw keep small)
      ∙ ap decr keep
]
  where
    apart : (j k : ℕ) → j < lg.lh.n → k < lg.lh.n → slot lg j ≢ lg.lh.block k
    apart j k a b q = let o = fits.home k b in let m = fits.room in omega arith

-- `install_trans` takes one use from the buffer of each home block that it writes.
install_trans-decr :
    (lg : Log) (s : Io) (i : ℕ)
    → Fits lg
    → Distinct lg.lh.n lg.lh.block
    → i < lg.lh.n
    → s.refcnt (lg.lh.block i) < 2 ^ 32
    → (install_trans lg s).refcnt (lg.lh.block i) ≡ decr (s.refcnt (lg.lh.block i))
unfolding install_trans
install_trans-decr lg s i fits d lt small =
    ap (λ f. f (lg.lh.block i)) (install_from-refcnt (rounds lg.lh.n) 0 lg s)
    ∙ counts-once (rounds lg.lh.n) 0 i lg s.refcnt fits d
        (omega (arith, rounds_small lg.lh.n fits.few)) (omega arith) lt small

read_head-refcnt :
    (lg : Log) (s : Io) (b : ℕ) → lg.start ≢ b → (read_head lg s).1.refcnt b ≡ s.refcnt b
unfolding read_head bread brelse
read_head-refcnt lg s b ne = ground arith

write_head-refcnt :
    (lg : Log) (s : Io) (b : ℕ) → lg.start ≢ b → (write_head lg s).refcnt b ≡ s.refcnt b
unfolding write_head bread brelse set_data bwrite
write_head-refcnt lg s b ne =
    ap (λ f. update f lg.start (decr (f lg.start)) b) (written-refcnt lg.start s.power _)
    ∙ ground arith

recover-refcnt :
    (lg : Log) (s : Io) (b : ℕ)
    → lg.start ≢ b
    → (recover_from_log lg s).1.refcnt b ≡ (install_trans (loaded lg s) (read_head lg s).1).refcnt b
unfolding recover_from_log
recover-refcnt lg s b ne =
    let u = install_trans (loaded lg s) (read_head lg s).1 in
    rw (read_head-log lg s) (write_head-refcnt (cleared (loaded lg s)) u b ne)

-- On a machine that has just started, where no buffer has a user: if the header on disk names
-- distinct home blocks that fit the log, then `recover_from_log` takes one use from the buffer of
-- each, and each count wraps to 2^32 - 1.
pub recover_underflow :
    (lg : Log) (lh : LogHeader) (hb : Block) (d : ℕ → Block) (p i : ℕ)
    → Fits (record lg { lh = lh })
    → Distinct lh.n lh.block
    → d lg.start ≡ header lh hb
    → i < lh.n
    → (recover_from_log lg (reboot d p)).1.refcnt (lh.block i) ≡ 2 ^ 32 - 1
recover_underflow lg lh hb d p i fits dist head lt =
    recover-refcnt lg s b ne
    ∙ subst (λ x. (install_trans lg1 s1).refcnt x ≡ 2 ^ 32 - 1) (same i lt)
        (install_trans-decr lg1 s1 i fits1 dist1 (omega (arith, count)) (omega (arith, zero))
          ∙ ap decr zero)
  where
    s : Io
    s = reboot d p

    lg1 : Log
    lg1 = loaded lg s

    s1 : Io
    s1 = (read_head lg s).1

    b : ℕ
    b = lh.block i

    ne : lg.start ≢ b
    ne = Outside-ne fits b (fits.home i lt)

    count : lg1.lh.n ≡ lh.n
    count = count-lem lg s lh hb fits head

    same : (j : ℕ) → j < lh.n → lg1.lh.block j ≡ lh.block j
    same = block-lem lg s lh hb fits head

    zero : s1.refcnt (lg1.lh.block i) ≡ 0
    zero = read_head-refcnt lg s (lg1.lh.block i) (rw (same i lt) ne)

    fits1 : Fits lg1
    fits1 = record {
      few = let f = fits.few in omega (arith, count);
      room = let r = fits.room in omega (arith, count);
      home = λ j h.
          subst (Outside lg) (sym (same j (omega (arith, count))))
            (fits.home j (omega (arith, count)));
    }

    dist1 : Distinct lg1.lh.n lg1.lh.block
    dist1 j k hj hk e =
        dist j k (omega (arith, count)) (omega (arith, count))
          (sym (same j (omega (arith, count))) ∙ e ∙ same k (omega (arith, count)))
