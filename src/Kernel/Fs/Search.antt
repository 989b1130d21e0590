-- ===== src/Kernel/Fs/Search.antt =====
-- Which block `balloc` chooses.
use learn_mit_s.Common.{
  ℕ, zero, suc, ◌+◌, ◌-◌, ◌*◌, ◌/◌, ◌≤◌, ◌<◌, ◌≡◌, sym, ap, ◌∙◌, ◌⊎◌, inl, inr, true, false, arith,
  ltb, Bool-cases, if-true, if-false, ltb→lt, dec_lt,
}
use learn_mit_s.Kernel.Fs.{
  Fs, Result, panicked, ◌>>◌, bind_result, bpb, bread, bblock, take_bit, scan_bits, balloc_from,
}
use learn_mit_s.Kernel.Fs.Bitmap.{
  used, Ready, with_held, brelse-bread, bit_at, bit_at-used, scan_bits-cases,
}

-- What `balloc` chooses from `b` on: the first block that is free, or none.
abbrev pub Full : Fs → ℕ → Type 0
Full s b = (x : ℕ) → b ≤ x → x < s.sb.size → used s x ≡ true

abbrev pub Chosen : Fs → ℕ → ℕ → Type 0
Chosen s b c =
    (b ≤ c) × (c < s.sb.size) × (used s c ≡ false) × ((x : ℕ) → b ≤ x → x < c → used s x ≡ true)

-- A block of the bitmap at a time.
in_block :
    (q n : ℕ) (s : Fs)
    → n ≤ bpb
    → ((i : ℕ) → 0 ≤ i → i < n → q * bpb + i < s.sb.size → bit_at (q * bpb) i s ≡ true)
    → (x : ℕ) → q * bpb ≤ x
    → x < q * bpb + n
    → x < s.sb.size
    → used s x ≡ true
in_block q n s small all x lo hi lt =
    let i = x - q * bpb in
    let at : q * bpb + i ≡ x = omega (arith, lo) in
    ap (used s) (sym at)
    ∙ sym (bit_at-used q i s (omega (arith, lo, hi, small)))
    ∙ all i (omega arith) (omega (arith, lo, hi)) (omega (arith, at, lt))

-- A search from `b` on ends in a panic or at the block chosen, in the byte of the bitmap that is locked.
abbrev pub Search : Fs → ℕ → Result ℕ → Type 0
Search s b r =
    (Full s b × (r ≡ panicked))
    ⊎ ((p j : ℕ) × (j < bpb)
        × Chosen s b (p * bpb + j)
        × (r ≡ take_bit (p * bpb) j (with_held (bblock (p * bpb) s) true s)))

two_ranges :
    (s : Fs) (a b n : ℕ)
    → ((x : ℕ) → a ≤ x → x < b → x < s.sb.size → used s x ≡ true)
    → ((x : ℕ) → b ≤ x → x < n → x < s.sb.size → used s x ≡ true)
    → (x : ℕ) → a ≤ x
    → x < n
    → x < s.sb.size
    → used s x ≡ true
two_ranges s a b n here later x lo hi lt = elim (dec_lt x b) [
  | yes below ↦ here x lo below lt
  | no above ↦ later x (omega (arith, above)) hi lt
]

later_block :
    (q : ℕ) (s : Fs) (r r' : Result ℕ)
    → r ≡ r'
    → ((x : ℕ) → q * bpb ≤ x → x < q * bpb + bpb → x < s.sb.size → used s x ≡ true)
    → Search s ((q + 1) * bpb) r'
    → Search s (q * bpb) r
later_block q s r r' on here (inl (full, e)) = inl (
  λ x lo lt.
      two_ranges s (q * bpb) (q * bpb + bpb) s.sb.size here
        (λ x l h lt'. full x (omega (arith, l)) lt') x lo lt lt,
  on ∙ e,
)
later_block q s r r' on here (inr (p, j, hi, (lo, lt, free, before), e)) = inr (
  p,
  j,
  hi,
  (
    omega (arith, lo),
    lt,
    free,
    λ x l h.
        two_ranges s (q * bpb) (q * bpb + bpb) (p * bpb + j) here
          (λ x l' h' lt'. before x (omega (arith, l')) h') x l h (omega (arith, h, lt)),
  ),
  on ∙ e,
)

pub balloc_from-cases :
    (fuel q : ℕ) (s : Fs)
    → Ready s
    → s.sb.size / bpb + 2 ≤ q + fuel
    → q ≤ s.sb.size / bpb + 1
    → Search s (q * bpb) (balloc_from fuel (q * bpb) s)
unfolding balloc_from
balloc_from-cases zero q s ok enough low = absurd (omega (arith, enough, low))
balloc_from-cases (suc fuel) q s ok enough low =
    let b = q * bpb in
    let at = bblock b s in
    let next = balloc_from fuel (b + bpb) in
    let s1 = with_held at true s in
    let round = (bread at >> scan_bits next bpb b 0) s in
    elim (Bool-cases (ltb b s.sb.size)) [
      | inr over ↦
          inl (λ x lo lt. absurd (ground (arith, over, lo, lt)), if-false round panicked over)
      | inl inside ↦
          let lt = ltb→lt b s.sb.size inside in
          let (locked, back) = brelse-bread at s (ok.bitmap_unheld b lt) in
          let here : balloc_from (suc fuel) b s ≡ scan_bits next bpb b 0 s1 =
            if-true round panicked inside
            ∙ ap (λ r. bind_result r (λ _. scan_bits next bpb b 0)) locked in
          elim (scan_bits-cases next bpb b 0 s1) [
            | inl (j, lo, hi, lt', free, before, e) ↦
                let same = bit_at-used q j s hi in
                inr (
                  q,
                  j,
                  hi,
                  (
                    omega arith,
                    lt',
                    sym same ∙ free,
                    λ x l h.
                        in_block q j s (omega (arith, hi)) (λ i l' h' _. before i l' h') x l h
                          (omega (arith, h, lt')),
                  ),
                  here ∙ e,
                )
            | inr (all, e) ↦
                let on : balloc_from (suc fuel) b s ≡ balloc_from fuel ((q + 1) * bpb) s =
                  here
                  ∙ e
                  ∙ ap (λ r. bind_result r (λ _. next)) back
                  ∙ ap (λ n. balloc_from fuel n s) (omega arith) in
                later_block q s (balloc_from (suc fuel) b s) (balloc_from fuel ((q + 1) * bpb) s) on
                  (in_block q bpb s (omega arith) all)
                  (balloc_from-cases fuel (q + 1) s ok (omega (arith, enough)) (omega (arith, lt)))
          ]
    ]
