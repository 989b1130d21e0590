-- ===== src/Kernel/Log/Runs.antt =====
-- Where a run of block copies leaves the blocks that it writes, and the blocks that it does not.
use learn_mit_s.Common.{
  ℕ, zero, suc, ◌+◌, ◌-◌, ◌≤◌, ◌<◌, ◌≡◌, refl, ap, ◌∙◌, ◌≢◌, ◌⊎◌, inl, inr, arith, ℕ_discrete,
  update_self, update_ne,
}
use learn_mit_s.Kernel.Blocks.{Block, Io}
use learn_mit_s.Kernel.Log.Loops.{Copied, Copies, done, more}

-- No round of `r` rounds from `tail` on writes block `b`.
abbrev pub Untouched : (ℕ → ℕ) → ℕ → ℕ → ℕ → Type 0
Untouched dst r tail b = (i : ℕ) → tail ≤ i → i < tail + r → dst i ≢ b

-- Some round does.
abbrev pub Touched : (ℕ → ℕ) → ℕ → ℕ → ℕ → Type 0
Touched dst r tail b = (i : ℕ) × (tail ≤ i) × (i < tail + r) × (dst i ≡ b)

Untouched-tail :
    (dst : ℕ → ℕ) (r tail b : ℕ) → Untouched dst (suc r) tail b → Untouched dst r (tail + 1) b
Untouched-tail dst r tail b h i lo hi = h i (omega arith) (omega arith)

pub Touched-cases : (dst : ℕ → ℕ) (r tail b : ℕ) → Touched dst r tail b ⊎ Untouched dst r tail b
Touched-cases dst zero tail b = inr (λ i lo hi. absurd (omega arith))
Touched-cases dst (suc r) tail b = elim (ℕ_discrete (dst tail) b) [
  | yes e ↦ inl (tail, omega arith, omega arith, e)
  | no ne ↦ elim (Touched-cases dst r (tail + 1) b) [
    | inl (i, lo, hi, e) ↦ inl (i, omega arith, omega arith, e)
    | inr h ↦ inr (λ i lo hi. elim (ℕ_discrete tail i) [
      | yes e ↦ rw (← e) ne
      | no ni ↦ h i (omega arith) (omega arith)
    ])
  ]
]

-- What one copy does to a block that it does not write.
pub step-disk : {to b : ℕ} {v : Block} {s t : Io} → Copied to v s t → to ≢ b → t.disk b ≡ s.disk b
step-disk {to} {b} {s = s} c ne = elim (ℕ_discrete s.power 0) [
  | yes e ↦ c.dark e b
  | no n ↦ c.lit (omega arith) b ∙ update_ne s.disk to _ b ne
]

pub step-view : {to b : ℕ} {v : Block} {s t : Io} → Copied to v s t → to ≢ b → t.view b ≡ s.view b
step-view {to} {b} {v} {s = s} c ne = c.view b ∙ update_ne s.view to v b ne

-- No source of a round is written by a round.
abbrev pub Separate : (ℕ → ℕ) → (ℕ → ℕ) → ℕ → ℕ → Type 0
Separate src dst r tail = (i : ℕ) → tail ≤ i → i < tail + r → Untouched dst r tail (src i)

Separate-tail :
    (src dst : ℕ → ℕ) (r tail : ℕ) → Separate src dst (suc r) tail → Separate src dst r (tail + 1)
Separate-tail src dst r tail h i lo hi j a b =
    h i (omega arith) (omega arith) j (omega arith) (omega arith)

-- All rounds that write `b` write the content `w` to it.
abbrev pub Agree : (ℕ → ℕ) → (ℕ → ℕ) → ℕ → ℕ → Io → ℕ → Block → Type 0
Agree src dst r tail s b w = (i : ℕ) → tail ≤ i → i < tail + r → dst i ≡ b → s.view (src i) ≡ w

Agree-tail :
    (src dst : ℕ → ℕ) (r : ℕ) {tail : ℕ} {s t : Io} (b : ℕ) (w : Block)
    → Copied (dst tail) (s.view (src tail)) s t
    → Separate src dst (suc r) tail
    → Agree src dst (suc r) tail s b w
    → Agree src dst r (tail + 1) t b w
Agree-tail src dst r {tail} b w c sep h i lo hi e =
    step-view c (sep i (omega arith) (omega arith) tail (omega arith) (omega arith))
    ∙ h i (omega arith) (omega arith) e

step-settled :
    (src dst : ℕ → ℕ) (r : ℕ) {tail : ℕ} {s t : Io} {b : ℕ} {w : Block}
    → Copied (dst tail) (s.view (src tail)) s t
    → Agree src dst (suc r) tail s b w
    → (s.disk b ≡ w) ⊎ ((dst tail ≡ b) × (0 < s.power))
    → t.disk b ≡ w
step-settled src dst r {tail} {s} {t} {b} {w} c h (inr (e, p)) =
    c.lit p b
    ∙ rw e (update_self s.disk b (s.view (src tail)))
    ∙ h tail (omega arith) (omega arith) e
step-settled src dst r {tail} {s} {t} {b} {w} c h (inl d) = elim (ℕ_discrete (dst tail) b) [
  | no ne ↦ step-disk c ne ∙ d
  | yes e ↦ elim (ℕ_discrete s.power 0) [
    | yes z ↦ c.dark z b ∙ d
    | no nz ↦
        c.lit (omega arith) b
        ∙ rw e (update_self s.disk b (s.view (src tail)))
        ∙ h tail (omega arith) (omega arith) e
  ]
]

module _ {src dst : ℕ → ℕ} where
  pub Copies-power : {r tail : ℕ} {s u : Io} → Copies src dst r tail s u → u.power ≡ s.power - r
  Copies-power done = omega arith
  Copies-power (more c rest) = let p = c.power in omega (arith, Copies-power rest)

  pub Copies-dark :
      {r tail : ℕ} {s u : Io}
      → Copies src dst r tail s u
      → s.power ≡ 0
      → (b : ℕ) → u.disk b ≡ s.disk b
  Copies-dark done h b = refl
  Copies-dark (more c rest) h b = let p = c.power in Copies-dark rest (omega arith) b ∙ c.dark h b

  pub Copies-other :
      {r tail : ℕ} {s u : Io}
      → Copies src dst r tail s u
      → (b : ℕ) → Untouched dst r tail b
      → (u.disk b ≡ s.disk b) × (u.view b ≡ s.view b)
  Copies-other done b h = (refl, refl)
  Copies-other (more {r} {tail} c rest) b h =
      let (d, v) = Copies-other rest b (Untouched-tail dst r tail b h) in
      let ne = h tail (omega arith) (omega arith) in (d ∙ step-disk c ne, v ∙ step-view c ne)

  -- With distinct targets every target gets what its source held at the start.
  pub Copies-fresh :
      {r tail : ℕ} {s u : Io}
      → Copies src dst r tail s u
      → Separate src dst r tail
      → ((i j : ℕ) → dst i ≡ dst j → i ≡ j)
      → (i : ℕ) → tail ≤ i
      → i < tail + r
      → (u.view (dst i) ≡ s.view (src i)) × (r ≤ s.power → u.disk (dst i) ≡ s.view (src i))
  Copies-fresh done sep inj i lo hi = absurd (omega arith)
  Copies-fresh (more {r} {tail} {s} {t} {u} c rest) sep inj i lo hi = elim (ℕ_discrete tail i) [
    | yes e ↦
        let own : Untouched dst r (tail + 1) (dst i) = λ j a b q. omega (arith, inj j i q) in
        let (d, v) = Copies-other rest (dst i) own in
        let source : s.view (src tail) ≡ s.view (src i) = ap (λ k. s.view (src k)) e in
        let target : dst tail ≡ dst i = ap dst e in
        (v ∙ put_view target ∙ source, λ p. d ∙ put_disk target (omega arith) ∙ source)
    | no ne ↦
        let p = c.power in
        let (v, d) =
          Copies-fresh rest (Separate-tail src dst r tail sep) inj i (omega arith) (omega arith) in
        let keep =
          step-view c (sep i (omega arith) (omega arith) tail (omega arith) (omega arith)) in
        (v ∙ keep, λ q. d (omega arith) ∙ keep)
  ]
    where
      put_view : {b : ℕ} → dst tail ≡ b → t.view b ≡ s.view (src tail)
      put_view {b} e = c.view b ∙ rw e (update_self s.view b (s.view (src tail)))

      put_disk : {b : ℕ} → dst tail ≡ b → 0 < s.power → t.disk b ≡ s.view (src tail)
      put_disk {b} e p = c.lit p b ∙ rw e (update_self s.disk b (s.view (src tail)))

  -- A block that holds `w` and is given `w` alone holds it still, wherever power fails.
  pub Copies-stays :
      {r tail : ℕ} {s u : Io} {b : ℕ} {w : Block}
      → Copies src dst r tail s u
      → Separate src dst r tail
      → Agree src dst r tail s b w
      → s.disk b ≡ w
      → u.disk b ≡ w
  Copies-stays done sep h d = d
  Copies-stays {b = b} {w = w} (more {r} {tail} c rest) sep h d =
      Copies-stays rest (Separate-tail src dst r tail sep) (Agree-tail src dst r b w c sep h)
        (step-settled src dst r c h (inl d))

  -- With power for every round a block that some round writes ends with `w`.
  pub Copies-settles :
      {r tail : ℕ} {s u : Io} {b : ℕ} {w : Block}
      → Copies src dst r tail s u
      → Separate src dst r tail
      → Agree src dst r tail s b w
      → r ≤ s.power
      → Touched dst r tail b
      → u.disk b ≡ w
  Copies-settles done sep h p (i, lo, hi, e) = absurd (omega arith)
  Copies-settles {b = b} {w = w} (more {r} {tail} {s} {t} {u} c rest) sep h p (i, lo, hi, e) =
      elim (ℕ_discrete tail i) [
        | yes here ↦
            Copies-stays rest (Separate-tail src dst r tail sep) (Agree-tail src dst r b w c sep h)
              (step-settled src dst r c h (inr (ap dst here ∙ e, omega arith)))
        | no ne ↦
            let q = c.power in
            Copies-settles rest (Separate-tail src dst r tail sep)
              (Agree-tail src dst r b w c sep h) (omega arith) (i, omega arith, omega arith, e)
      ]
