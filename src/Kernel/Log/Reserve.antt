-- ===== src/Kernel/Log/Reserve.antt =====
-- The reservation of log space: file system calls that begin, write blocks and end in any order, and
-- commits when the last one has ended.
use learn_mit_s.Common.{
  ℕ, zero, suc, ◌+◌, ◌-◌, ◌*◌, ◌≤◌, ◌<◌, ◌≡◌, refl, ap, ◌↔◌, inl, inr, Bool, true, false, some,
  List, [], ◌∷◌, ◌++◌, arith, ◌==◌, Bool-cases, length, length-append, update,
}
use learn_mit_s.Kernel.Log.{
  maxopblocks, logsize, Log, rounds, cleared, begin_op, end_op, end_commit, absorb, log_write,
}

-- The log and, for each call between `begin_op` and `end_op`, how often it has called `log_write`.
pub record Calls : Type 0 where
  pub log : Log
  pub ops : List ℕ

-- A call writes at most `MAXOPBLOCKS` blocks: what param.h says of every file system call.
pub data Step (c : Calls) : Calls → Type 0 where
  begin : {lg : Log} → begin_op c.log ≡ some lg → Step c (record { log = lg; ops = 0 ∷ c.ops })
  write :
      (b u : ℕ) (pre post : List ℕ) {lg : Log} {new : Bool}
      → c.ops ≡ pre ++ u ∷ post
      → u < maxopblocks
      → log_write b c.log ≡ some (lg, new)
      → Step c (record { log = lg; ops = pre ++ (u + 1) ∷ post })
  end :
      (u : ℕ) (pre post : List ℕ) {lg : Log} {last : Bool}
      → c.ops ≡ pre ++ u ∷ post
      → end_op c.log ≡ some (lg, last)
      → Step c (record { log = lg; ops = pre ++ post })
  commit :
      c.log.committing ≡ true → Step c (record { log = end_commit (cleared c.log); ops = c.ops })

-- The log after `initlog`: empty, with no call in progress.
abbrev pub idle_log : ℕ → ℕ → (ℕ → ℕ) → Log
idle_log start size block = record {
  start = start;
  size = size;
  outstanding = 0;
  committing = false;
  lh = record { n = 0; block = block };
}

pub data Reach (size : ℕ) : Calls → Type 0 where
  ready :
      (start : ℕ) (block : ℕ → ℕ)
      → Reach size (record { log = idle_log start size block; ops = [] })
  later : {c d : Calls} → Reach size c → Step c d → Reach size d

-- The blocks that the calls may still write.
abbrev promised : List ℕ → ℕ
promised [] = 0
promised (u ∷ us) = (maxopblocks - u) + promised us

promised-le : (us : List ℕ) → promised us ≤ length us * maxopblocks
promised-le [] = omega arith
promised-le (u ∷ us) = omega (arith, promised-le us)

promised-append : (us vs : List ℕ) → promised (us ++ vs) ≡ promised us + promised vs
promised-append [] vs = omega arith
promised-append (u ∷ us) vs = omega (arith, promised-append us vs)

record Inv (size : ℕ) (c : Calls) : Type 0 where
  sized : c.log.size ≡ size
  space : c.log.lh.n + promised c.ops ≤ logsize
  counted : c.log.outstanding ≡ length c.ops
  few : c.log.outstanding ≤ 3
  alone : c.log.committing ≡ true → c.log.outstanding ≡ 0

absorb-le : (r i b : ℕ) (block : ℕ → ℕ) → absorb r i block b ≤ i + r
unfolding absorb
absorb-le zero i b block = omega arith
absorb-le (suc r) i b block = ground (arith, absorb-le r (i + 1) b block)

begin-Inv :
    (size : ℕ) (c : Calls) (lg : Log)
    → Inv size c
    → begin_op c.log ≡ some lg
    → Inv size (record { log = lg; ops = 0 ∷ c.ops })
unfolding begin_op
begin-Inv size c lg v e = ground (arith, promised-le c.ops)

write-Inv :
    (size : ℕ) (c : Calls) (b u : ℕ) (pre post : List ℕ) (lg : Log) (new : Bool)
    → Inv size c
    → c.ops ≡ pre ++ u ∷ post
    → u < maxopblocks
    → log_write b c.log ≡ some (lg, new)
    → Inv size (record { log = lg; ops = pre ++ (u + 1) ∷ post })
unfolding log_write
write-Inv size c b u pre post lg new v e lt w = ground (
  arith,
  ap promised e,
  ap length e,
  promised-append pre (u ∷ post),
  promised-append pre ((u + 1) ∷ post),
  length-append pre (u ∷ post),
  length-append pre ((u + 1) ∷ post),
)

end-Inv :
    (size : ℕ) (c : Calls) (u : ℕ) (pre post : List ℕ) (lg : Log) (last : Bool)
    → Inv size c
    → c.ops ≡ pre ++ u ∷ post
    → end_op c.log ≡ some (lg, last)
    → Inv size (record { log = lg; ops = pre ++ post })
unfolding end_op
end-Inv size c u pre post lg last v e w = ground (
  arith,
  ap promised e,
  ap length e,
  promised-append pre (u ∷ post),
  promised-append pre post,
  length-append pre (u ∷ post),
  length-append pre post,
)

commit-Inv :
    (size : ℕ) (c : Calls)
    → Inv size c
    → Inv size (record { log = end_commit (cleared c.log); ops = c.ops })
unfolding end_commit
commit-Inv size c v = ground arith

Step-Inv : {size : ℕ} {c d : Calls} → Step c d → Inv size c → Inv size d
Step-Inv {size} {c} (begin {lg} e) v = begin-Inv size c lg v e
Step-Inv {size} {c} (write b u pre post {lg} {new} e lt w) v =
    write-Inv size c b u pre post lg new v e lt w
Step-Inv {size} {c} (end u pre post {lg} {last} e w) v = end-Inv size c u pre post lg last v e w
Step-Inv {size} {c} (commit q) v = commit-Inv size c v

Reach-Inv : {size : ℕ} {c : Calls} → Reach size c → Inv size c
Reach-Inv (ready start block) = omega arith
Reach-Inv (later r st) = Step-Inv st (Reach-Inv r)

log_write-some :
    (b : ℕ) (lg : Log)
    → lg.lh.n < logsize
    → lg.lh.n + 1 < lg.size
    → 0 < lg.outstanding
    → (lg' : Log) × (new : Bool) × (log_write b lg ≡ some (lg', new)) × (lg'.lh.n ≤ logsize)
unfolding log_write
log_write-some b lg small room active = elim (Bool-cases (i == lg.lh.n)) [
  | inl e ↦ (
    record lg { lh = record { n = lg.lh.n + 1; block = update lg.lh.block i b } },
    true,
    ground arith,
    omega arith,
  )
  | inr e ↦ (
    record lg { lh = record { n = lg.lh.n; block = update lg.lh.block i b } },
    false,
    ground arith,
    omega arith,
  )
]
  where
    i : ℕ
    i = absorb (rounds lg.lh.n) 0 lg.lh.block b

length-zero_iff : (xs : List ℕ) → (length xs ≡ 0) ↔ (xs ≡ [])
length-zero_iff [] = (λ e. refl, λ e. refl)
length-zero_iff (x ∷ xs) = (λ e. absurd (omega arith), λ e. cc)

end_op-some :
    (lg : Log) (left : List ℕ)
    → lg.committing ≡ false
    → lg.outstanding ≡ length left + 1
    → lg.outstanding ≤ 3
    → (lg' : Log) × (last : Bool) × (end_op lg ≡ some (lg', last)) × ((last ≡ true) ↔ (left ≡ []))
unfolding end_op
end_op-some lg [] quiet count few =
    (record lg { outstanding = 0; committing = true }, true, ground arith, (λ e. refl, λ e. refl))
end_op-some lg (x ∷ left) quiet count few =
    (record lg { outstanding = length left + 1 }, false, ground arith, (λ e. cc, λ e. cc))

-- In every run of calls that write at most `MAXOPBLOCKS` blocks each, with a log of more than
-- `LOGSIZE` blocks, a call that has writes left is not refused by `log_write`, whichever block it
-- writes, and the header array has room for the block.
pub log_write_succeeds :
    {size : ℕ} {c : Calls}
    → Reach size c
    → logsize < size
    → (b u : ℕ) (pre post : List ℕ) → c.ops ≡ pre ++ u ∷ post
    → u < maxopblocks
    → (lg : Log) × (new : Bool) × (log_write b c.log ≡ some (lg, new)) × (lg.lh.n ≤ logsize)
log_write_succeeds {size} {c} r h b u pre post e lt =
    let v = Reach-Inv r in
    let p = ap promised e in
    let q = ap length e in
    log_write-some b c.log (omega (arith, promised-append pre (u ∷ post)))
      (omega (arith, promised-append pre (u ∷ post))) (omega (arith, length-append pre (u ∷ post)))

-- In every run of calls that write at most `MAXOPBLOCKS` blocks each, `end_op` of a call in
-- progress does not panic, and it asks for a commit exactly when no other call is in progress.
pub end_op-last_iff :
    {size : ℕ} {c : Calls}
    → Reach size c
    → (u : ℕ) (pre post : List ℕ) → c.ops ≡ pre ++ u ∷ post
    → (lg : Log) × (last : Bool) × (end_op c.log ≡ some (lg, last))
      × ((last ≡ true) ↔ (pre ++ post ≡ []))
end_op-last_iff {size} {c} r u pre post e =
    end_op-some c.log (pre ++ post) quiet
      (omega
        (arith, Reach-Inv r, ap length e, length-append pre (u ∷ post), length-append pre post))
      (Reach-Inv r).few
  where
    quiet : c.log.committing ≡ false
    quiet = ground (arith, Reach-Inv r, ap length e, length-append pre (u ∷ post))
