-- ===== src/Kernel/Spinlock/Nesting.antt =====
-- Pairs of push_off and pop_off, nested and in sequence.
use learn_mit_s.Common.{
  ◌-◌, ◌≡◌, refl, ◌∙◌, ◌⊎◌, inl, inr, false, ◌&&◌, Option, none, some, List, [], ◌∷◌, ◌++◌, arith,
  ◌==◌, Option-cases,
}
use learn_mit_s.Kernel.Spinlock.{Cpu, push_off, pop_off}

pub data Call : Type 0 where
  push pop : Call

-- The calls in order; `none` is a panic.
pub run : List Call → Cpu → Option Cpu
run [] c = some c
run (push ∷ calls) c = run calls (push_off c)
run (pop ∷ calls) c = elim (pop_off c) [ none ↦ none | some c' ↦ run calls c' ]

-- Every push has its pop.
pub data Balanced : List Call → Type 0 where
  nil : Balanced []
  pair :
      {inner rest : List Call}
      → Balanced inner
      → Balanced rest
      → Balanced (push ∷ inner ++ (pop ∷ rest))

-- Inside a pair interrupts are off.
abbrev pub IsValid : Cpu → Type 0
IsValid c = (c.noff ≡ 0) ⊎ (c.intr ≡ false)

run-append :
    (xs ys : List Call) (c : Cpu)
    → run (xs ++ ys) c ≡ (elim (run xs c) [ none ↦ none | some c' ↦ run ys c' ])
unfolding run
run-append [] ys c = refl
run-append (push ∷ xs) ys c = run-append xs ys (push_off c)
run-append (pop ∷ xs) ys c = elim (Option-cases (pop_off c)) [
  | inl e ↦ rw (e, run)
  | inr (c', e) ↦ rw (e, run) (run-append xs ys c')
]

-- What a balanced run leaves as it was: the depth, whether interrupts are on, and, inside a pair, what
-- will be restored at its end.
pub record Restored (c c' : Cpu) : Type 0 where
  pub depth : c'.noff ≡ c.noff
  pub enabled : c'.intr ≡ c.intr
  pub saved : (c.noff ≡ 0) ⊎ (c'.intena ≡ c.intena)

pop-push :
    (c d : Cpu)
    → IsValid c
    → Restored (push_off c) d
    → (c' : Cpu) × (pop_off d ≡ some c') × IsValid c' × Restored c c'
unfolding push_off pop_off
pop-push c d v r = (
  record { intr = d.noff - 1 == 0 && d.intena; noff = d.noff - 1; intena = d.intena },
  ground arith,
  ground arith,
  ground arith,
)

push_off-IsValid : (c : Cpu) → IsValid (push_off c)
unfolding push_off
push_off-IsValid c = inr refl

Restored-trans : {a b c : Cpu} → Restored a b → Restored b c → Restored a c
Restored-trans p q = ground arith

-- From a state of the CPU in which interrupts are off while the depth is above 0, a balanced run
-- of `push_off` and `pop_off` does not panic, and ends with the nesting depth and the interrupt
-- enable bit that it started with, in such a state.
pub Balanced-run :
    {calls : List Call}
    → Balanced calls
    → (c : Cpu) → IsValid c
    → (c' : Cpu) × (run calls c ≡ some c') × IsValid c' × Restored c c'
unfolding run
Balanced-run nil c v = (c, refl, v, record { depth = refl; enabled = refl; saved = inr refl })
Balanced-run (pair {inner} {rest} i r) c v =
    let (d, ran, vd, rd) = Balanced-run i (push_off c) (push_off-IsValid c) in
    let (e, popped, ve, re) = pop-push c d v rd in
    let (f, ran', vf, rf) = Balanced-run r e ve in
    (
      f,
      run-append inner (pop ∷ rest) (push_off c) ∙ rw ran (rw (popped, run) ran'),
      vf,
      Restored-trans re rf,
    )
