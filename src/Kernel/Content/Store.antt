-- ===== src/Kernel/Content/Store.antt =====
-- The loop of `writei` from kernel memory, over blocks that the file holds: the bytes get there.
use learn_mit_s.Common.{
  ℕ, zero, suc, ◌+◌, ◌-◌, ◌/◌, ◌%◌, ◌≤◌, ◌<◌, ◌≡◌, refl, sym, ap, ◌∙◌, ◌≢◌, ◌⊎◌, inl, inr, true,
  false, arith, ltb, Bool-cases, ltb→lt, dec_lt, ℕ_discrete, if-true, if-false,
}
use mathlib.Core.Path.{subst}
use learn_mit_s.Kernel.Str.{Mem}
use learn_mit_s.Kernel.Usercopy.{either_copyin}
use learn_mit_s.Kernel.Fs.{bsize, Fs, done, M, bind_result, ◌>>◌, pure, bread, log_write}
use learn_mit_s.Kernel.Fs.Bitmap.{with_held, brelse-bread}
use learn_mit_s.Kernel.Fs.Take.{brelse_locked}
use learn_mit_s.Kernel.Inode.Blocks.{block_of, bmap-IsHeld}
use learn_mit_s.Kernel.Content.{Space, area, part, write_copied, write_locked, writei_from}
use learn_mit_s.Kernel.Content.Logged.{Logs, no_bytes-Logs, Logs-round}
use learn_mit_s.Kernel.Content.Round.{IsOwn, Wrote, Wrote-block_of, stored, stored-Wrote}

-- One part and then the next.
Wrote-trans :
    (s s1 t : Fs) (ip lo mid hi src : ℕ) (m : Mem)
    → lo ≤ mid
    → mid ≤ hi
    → IsOwn s ip lo hi
    → ((bn : ℕ) → block_of s1 ip bn ≡ block_of s ip bn)
    → Wrote s s1 ip lo mid src m
    → Wrote s1 t ip mid hi (src + (mid - lo)) m
    → Wrote s t ip lo hi src m
Wrote-trans s s1 t ip lo mid hi src m le le' own same a b = record {
  sb = b.sb ∙ a.sb;
  inodes = b.inodes ∙ a.inodes;
  held = b.held ∙ a.held;
  bytes = λ q l h. elim (dec_lt q mid) [
    | yes early ↦
        b.kept (block_of s ip (q / bsize)) (q % bsize) (λ q' l' h'. other_byte q q' l early l' h')
        ∙ a.bytes q l early
    | no late ↦
        ap (λ c. t.blocks c (q % bsize)) (sym (same (q / bsize)))
        ∙ b.bytes q (omega (arith, late)) h
        ∙ ap m (omega (arith, late, le))
  ];
  kept = λ c i away.
      b.kept c i (λ q l h. elim (away q (omega (arith, l, le)) h) [
        | inl ne ↦ inl (λ e. ne (sym (same (q / bsize)) ∙ e))
        | inr ne ↦ inr ne
      ])
      ∙ a.kept c i (λ q l h. away q l (omega (arith, h, le')));
}
  where
    -- A byte of the first part is none of the second.
    other_byte :
        (q q' : ℕ)
        → lo ≤ q
        → q < mid
        → mid ≤ q'
        → q' < hi
        → (block_of s1 ip (q' / bsize) ≢ block_of s ip (q / bsize)) ⊎ (q' % bsize ≢ q % bsize)
    other_byte q q' l h l' h' =
        elim (ℕ_discrete (block_of s1 ip (q' / bsize)) (block_of s ip (q / bsize))) [
          | no ne ↦ inl ne
          | yes e ↦
              let near =
                own.apart q' q (omega (arith, l', le)) h' l (omega (arith, h, le'))
                  (sym (same (q' / bsize)) ∙ e) in
              inr (λ z. absurd (omega (arith, near, z, h, l')))
        ]

stored-IsOwn :
    (s : Fs) (ip off src k hi : ℕ) (m : Mem)
    → IsOwn s ip off hi
    → ((bn : ℕ) → block_of (stored s ip off src k m) ip bn ≡ block_of s ip bn)
    → IsOwn (stored s ip off src k m) ip (off + k) hi
stored-IsOwn s ip off src k hi m own same = record {
  held = λ q l h.
      let x = own.held q (omega (arith, l)) h in
      record {
        small = x.small;
        nonzero = λ e. x.nonzero (sym (same (q / bsize)) ∙ e);
        unheld = ap s.held (same (q / bsize)) ∙ x.unheld;
        indirect = x.indirect;
      };
  apart = λ q q' l h l' h' e.
      own.apart q q' (omega (arith, l)) h (omega (arith, l')) h'
        (sym (same (q / bsize)) ∙ e ∙ same (q' / bsize));
  no_list = λ q l h e. own.no_list q (omega (arith, l)) h (sym (same (q / bsize)) ∙ e);
}

narrow : {s : Fs} {ip lo hi hi' : ℕ} → hi' ≤ hi → IsOwn s ip lo hi → IsOwn s ip lo hi'
narrow le own = record {
  held = λ q l h. own.held q l (omega (arith, h, le));
  apart = λ q q' l h l' h'. own.apart q q' l (omega (arith, h, le)) l' (omega (arith, h', le));
  no_list = λ q l h. own.no_list q l (omega (arith, h, le));
}

-- A round: the block is locked, filled, logged and released.
write_round :
    (rest : M ℕ) (p : Space) (ip src off k : ℕ) (m : Mem) (s : Fs)
    → s.held (block_of s ip (off / bsize)) ≡ false
    → write_locked rest p false src off k m
        (block_of s ip (off / bsize))
        (with_held (block_of s ip (off / bsize)) true s)
      ≡ rest (stored s ip off src k m)
unfolding write_locked write_copied either_copyin log_write
write_round rest p ip src off k m s unheld =
    let b = block_of s ip (off / bsize) in
    ap (λ r. bind_result r (λ _. rest))
      (brelse_locked b (with_held b true (stored s ip off src k m)) s.held unheld refl)

-- The bytes of kernel memory from `src` on go into the file from `off` on, where it holds the blocks, no
-- other byte of any block is changed; `log_write` marks the blocks that these bytes lie in.
pub writei_from-Wrote :
    (fuel : ℕ) (p : Space) (ip src off n tot : ℕ) (m : Mem) (s : Fs)
    → tot ≤ n
    → n - tot < fuel
    → src + (n - tot) ≤ area
    → IsOwn s ip off (off + (n - tot))
    → (t : Fs) × (writei_from fuel p ip false src off n tot m s ≡ done (off + (n - tot)) t)
      × Wrote s t ip off (off + (n - tot)) src m
      × Logs s t ip off (n - tot)
unfolding writei_from
writei_from-Wrote zero p ip src off n tot m s le lt low own = absurd (omega (arith, lt))
writei_from-Wrote (suc fuel) p ip src off n tot m s le lt low own = elim (Bool-cases (ltb tot n)) [
  | inr end ↦ (
    s,
    ap (λ f. f s) (if-false _ (pure off) end) ∙ ap (λ k. done k s) (ground (arith, end, le)),
    record {
      sb = refl;
      inodes = refl;
      held = refl;
      bytes = λ q l h. absurd (ground (arith, end, l, h));
      kept = λ b i away. refl;
    },
    no_bytes-Logs s ip off (n - tot) (ground (arith, end, le)),
  )
  | inl more ↦
      let k = part n tot off in
      let pos : tot < n = ltb→lt tot n more in
      let h = own.held off (omega arith) (omega (arith, pos)) in
      let b = block_of s ip (off / bsize) in
      let s1 = stored s ip off src k m in
      let rest = writei_from fuel p ip false (src + k) (off + k) n (tot + k) m in
      let (locked, back) = brelse-bread b s h.unheld in
      let hi = off + (n - tot) in
      let first : Wrote s s1 ip off (off + k) src m =
        stored-Wrote s ip off src k m (omega arith) (omega (arith, low)) in
      let same : (bn : ℕ) → block_of s1 ip bn ≡ block_of s ip bn =
        λ bn. Wrote-block_of bn (narrow (omega arith) own) first in
      let left : n - (tot + k) ≡ n - tot - k = omega arith in
      let end : off + k + (n - (tot + k)) ≡ hi = omega (arith, pos) in
      let (t, e, w, l) =
        writei_from-Wrote fuel p ip (src + k) (off + k) n (tot + k) m s1 (omega (arith, pos))
          (omega (arith, pos, lt)) (omega (arith, pos, low))
          (narrow (omega (arith, end)) (stored-IsOwn s ip off src k hi m own same)) in
      let w' : Wrote s1 t ip (off + k) hi (src + (off + k - off)) m =
        subst (λ x. Wrote s1 t ip (off + k) hi x m) (omega arith)
          (subst (λ x. Wrote s1 t ip (off + k) x (src + k) m) end w) in
      (
        t,
        ap (λ f. f s) (if-true _ (pure off) more)
            ∙ ap (λ r. bind_result r (λ b'. bread b' >> write_locked rest p false src off k m b'))
                (bmap-IsHeld ip (off / bsize) s h)
            ∙ ap (λ r. bind_result r (λ _. write_locked rest p false src off k m b)) locked
            ∙ write_round rest p ip src off k m s h.unheld
            ∙ e
            ∙ ap (λ x. done x t) end,
        Wrote-trans s s1 t ip off (off + k) hi src m (omega arith) (omega (arith, pos)) own same
            first w',
        Logs-round s s1 t ip off k (n - tot) (omega (arith, pos)) refl refl same
            (subst (λ x. Logs s1 t ip (off + k) x) left l),
      )
]
