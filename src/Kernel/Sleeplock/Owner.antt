-- ===== src/Kernel/Sleeplock/Owner.antt =====
-- The owner of a sleep lock, over any number of processes and all orders of their calls.
use learn_mit_s.Common.{
  ℕ, ◌≡◌, refl, sym, ◌∙◌, ◌↔◌, Bool, true, false, none, some, arith, update, some_inj, inl, inr,
  Bool-cases,
}
use mathlib.Core.Path.{subst}
use learn_mit_s.Kernel.Sleeplock.{
  Sleeplock, initsleeplock, acquiresleep, releasesleep, holdingsleep,
}

-- The lock, and which processes are between `acquiresleep` and `releasesleep`.
pub record Users : Type 0 where
  pub lock : Sleeplock
  pub inside : ℕ → Bool

-- A process releases a lock that it holds.
pub data Step (s : Users) : Users → Type 0 where
  acquire :
      (p : ℕ) {lk : Sleeplock}
      → acquiresleep p s.lock ≡ some lk
      → Step s (record { lock = lk; inside = update s.inside p true })
  release :
      (p : ℕ)
      → s.inside p ≡ true
      → Step s (record { lock = releasesleep s.lock; inside = update s.inside p false })

pub data Reach : Users → Type 0 where
  start : Reach (record { lock = initsleeplock; inside = λ _. false })
  later : {s t : Users} → Reach s → Step s t → Reach t

-- The processes inside are the one that the lock names, while it is locked.
abbrev Inv : Users → Type 0
Inv s = (p : ℕ) → (holdingsleep p s.lock ≡ true) ↔ (s.inside p ≡ true)

acquired :
    (p : ℕ) (lk lk' : Sleeplock)
    → acquiresleep p lk ≡ some lk'
    → (lk.locked ≡ false) × (lk' ≡ record { locked = true; pid = p })
unfolding acquiresleep
acquired p lk lk' e = elim (Bool-cases lk.locked) [
  | inl y ↦ let no : acquiresleep p lk ≡ none = rw y refl in ground (arith, no, e)
  | inr n ↦
      let went : acquiresleep p lk ≡ some (record { locked = true; pid = p }) = rw n refl in
      (n, some_inj (sym e ∙ went))
]

Step-Inv : (s t : Users) → Inv s → Step s t → Inv t
unfolding holdingsleep releasesleep
Step-Inv s t v (acquire p e) q =
    let (open_before, now) = acquired p s.lock _ e in
    subst (λ lk. (holdingsleep q lk ≡ true) ↔ (update s.inside p true q ≡ true)) (sym now)
      (λ h. ground (arith, v q), λ h. ground (arith, v q))
Step-Inv s t v (release p h) q = (λ x. ground (arith, v q, v p), λ x. ground (arith, v q, v p))

Reach-Inv : {s : Users} → Reach s → Inv s
unfolding holdingsleep initsleeplock
Reach-Inv start = λ p. (λ h. ground arith, λ h. ground arith)
Reach-Inv (later {s} {t} r a) = Step-Inv s t (Reach-Inv r) a

-- In every reachable state `holdingsleep` is true for a process exactly while it is between
-- `acquiresleep` and `releasesleep`.
pub holdingsleep-true_iff :
    {s : Users} → Reach s → (p : ℕ) → (holdingsleep p s.lock ≡ true) ↔ (s.inside p ≡ true)
holdingsleep-true_iff r p = Reach-Inv r p

-- In every reachable state at most one process is between `acquiresleep` and `releasesleep`.
pub single_owner : {s : Users} → Reach s → (p q : ℕ) → s.inside p ≡ true → s.inside q ≡ true → p ≡ q
unfolding holdingsleep
single_owner r p q a b = ground (arith, (Reach-Inv r p).1 a, (Reach-Inv r q).1 b)
