-- ===== src/User/Sh/Progress.antt =====
-- The parser comes to an end: each round takes a byte, so the fuel suffices.
use learn_mit_s.Common.{
  ℕ, zero, suc, ◌+◌, ◌*◌, ◌≤◌, ◌<◌, ◌≡◌, refl, sym, ◌≢◌, Bool, true, false, not, List, [], ◌∷◌,
  ◌++◌, length, leb, arith, ◌==◌, if_both,
}
use learn_mit_s.User.Sh.{
  Text, maxargs, Cmd, backcmd, skip_spaces, gettoken, peek, Parsed, parsed, panicked, out_of_fuel,
  then_parse, redirected, Wrap, Redirs, redirs, parseredirs, with_redirs, parseargs, parsebacks,
  parseline, parsepipe, parseexec, parseblock, leftovers, whole, parsecmd,
}
use learn_mit_s.User.Sh.Shrinks.{skip_spaces-le, gettoken-le, peek-lt, word-token_lt}

-- The call ends, and leaves at most `n` bytes.
abbrev Finishes : ℕ → Parsed → Type 0
Finishes n (parsed cmd s) = length s ≤ n
Finishes n panicked = Unit
Finishes n out_of_fuel = true ≡ false

abbrev RedirsFinish : ℕ → Redirs → Type 0
RedirsFinish n (redirs wrap s) = length s ≤ n
RedirsFinish n Redirs.panicked = Unit
RedirsFinish n Redirs.out_of_fuel = true ≡ false

then_parse-Finishes :
    (n m : ℕ) (r : Parsed) (k : Cmd → Text → Parsed)
    → Finishes n r
    → ((cmd : Cmd) (s : Text) → length s ≤ n → Finishes m (k cmd s))
    → Finishes m (then_parse r k)
then_parse-Finishes n m (parsed cmd s) k h f = f cmd s h
then_parse-Finishes n m panicked k h f = tt
then_parse-Finishes n m out_of_fuel k h f = h

with_redirs-Finishes :
    (n m : ℕ) (r : Redirs) (k : Wrap → Text → Parsed)
    → RedirsFinish n r
    → ((wrap : Wrap) (s : Text) → length s ≤ n → Finishes m (k wrap s))
    → Finishes m (with_redirs r k)
with_redirs-Finishes n m (redirs wrap s) k h f = f wrap s h
with_redirs-Finishes n m Redirs.panicked k h f = tt
with_redirs-Finishes n m Redirs.out_of_fuel k h f = h

not-true : (b : Bool) → not b ≡ false → b ≡ true
not-true true h = refl
not-true false h = sym h

Finishes-mono : (n m : ℕ) (r : Parsed) → n ≤ m → Finishes n r → Finishes m r
Finishes-mono n m (parsed cmd s) b h = omega arith
Finishes-mono n m panicked b h = tt
Finishes-mono n m out_of_fuel b h = h

RedirsFinish-mono : (n m : ℕ) (r : Redirs) → n ≤ m → RedirsFinish n r → RedirsFinish m r
RedirsFinish-mono n m (redirs wrap s) b h = omega arith
RedirsFinish-mono n m Redirs.panicked b h = tt
RedirsFinish-mono n m Redirs.out_of_fuel b h = h

parseredirs-Finish :
    (fuel : ℕ) (wrap : Wrap) (s : Text)
    → length s < fuel
    → RedirsFinish (length s) (parseredirs fuel wrap s)
unfolding parseredirs
parseredirs-Finish zero wrap s h = absurd (omega (arith, h))
parseredirs-Finish (suc fuel) wrap s h =
    let toks : Text = 60 ∷ 62 ∷ [] in
    let p = gettoken s in
    let q = gettoken p.2 in
    if_both (RedirsFinish (length s)) (not (peek toks s)) _ _ (λ e. skip_spaces-le s)
      λ e.
        let lt = peek-lt toks s (not-true (peek toks s) e) in
        if_both (RedirsFinish (length s)) (not (q.0 == 97)) _ _ (λ k. tt)
          λ k. RedirsFinish-mono (length q.2) (length s) _ (omega (arith, gettoken-le p.2)) (
            parseredirs-Finish fuel (λ cmd. redirected p.0 (wrap cmd) q.1) q.2
              (omega (arith, gettoken-le p.2)))

parseargs-Finishes :
    (fuel : ℕ) (argv : List Text) (wrap : Wrap) (s : Text)
    → length s < fuel
    → Finishes (length s) (parseargs fuel argv wrap s)
unfolding parseargs
parseargs-Finishes zero argv wrap s h = absurd (omega (arith, h))
parseargs-Finishes (suc fuel) argv wrap s h =
    let p = gettoken s in
    let n = length s in
    if_both (Finishes n) (peek (124 ∷ 41 ∷ 38 ∷ 59 ∷ []) s) _ _ (λ e. skip_spaces-le s)
      λ e.
        if_both (Finishes n) (p.0 == 0) _ _ (λ z. gettoken-le s)
          λ z.
            if_both (Finishes n) (not (p.0 == 97)) _ _ (λ k. tt)
              λ k.
                let lt = word-token_lt s (not-true (p.0 == 97) k) in
                if_both (Finishes n) (leb maxargs (length (argv ++ p.1 ∷ []))) _ _ (λ l. tt)
                  λ l.
                    with_redirs-Finishes (length p.2) n _ _
                      (parseredirs-Finish fuel wrap p.2 (omega arith))
                      λ w s2 b.
                        Finishes-mono (length s2) n _ (omega arith)
                          (parseargs-Finishes fuel (argv ++ p.1 ∷ []) w s2 (omega arith))

parsebacks-Finishes :
    (fuel : ℕ) (cmd : Cmd) (s : Text)
    → length s < fuel
    → Finishes (length s) (parsebacks fuel cmd s)
unfolding parsebacks
parsebacks-Finishes zero cmd s h = absurd (omega (arith, h))
parsebacks-Finishes (suc fuel) cmd s h =
    let p = gettoken s in
    if_both (Finishes (length s)) (peek (38 ∷ []) s) _ _
      (λ e.
        let lt = peek-lt (38 ∷ []) s e in
        Finishes-mono (length p.2) (length s) _ (omega arith)
          (parsebacks-Finishes fuel (backcmd cmd) p.2 (omega arith)))
      λ e. skip_spaces-le s

mutual
  unfolding parseline

  parseline-Finishes :
      (fuel : ℕ) (s : Text) → 4 * length s + 4 ≤ fuel → Finishes (length s) (parseline fuel s)
  parseline-Finishes zero s h = absurd (omega (arith, h))
  parseline-Finishes (suc fuel) s h =
      let n = length s in
      then_parse-Finishes n n (parsepipe fuel s) _ (parsepipe-Finishes fuel s (omega arith))
        λ cmd s1 b1.
          then_parse-Finishes (length s1) n (parsebacks fuel cmd s1) _
            (parsebacks-Finishes fuel cmd s1 (omega arith))
            λ cmd1 s2 b2.
              let p = gettoken s2 in
              if_both (Finishes n) (peek (59 ∷ []) s2) _ _
                (λ e.
                  let lt = peek-lt (59 ∷ []) s2 e in
                  then_parse-Finishes (length p.2) n (parseline fuel p.2) _
                    (parseline-Finishes fuel p.2 (omega arith)) λ right s4 b4. omega arith)
                λ e. omega (arith, skip_spaces-le s2)

  parsepipe-Finishes :
      (fuel : ℕ) (s : Text) → 4 * length s + 3 ≤ fuel → Finishes (length s) (parsepipe fuel s)
  parsepipe-Finishes zero s h = absurd (omega (arith, h))
  parsepipe-Finishes (suc fuel) s h =
      let n = length s in
      then_parse-Finishes n n (parseexec fuel s) _ (parseexec-Finishes fuel s (omega arith))
        λ cmd s1 b1.
          let p = gettoken s1 in
          if_both (Finishes n) (peek (124 ∷ []) s1) _ _
            (λ e.
              let lt = peek-lt (124 ∷ []) s1 e in
              then_parse-Finishes (length p.2) n (parsepipe fuel p.2) _
                (parsepipe-Finishes fuel p.2 (omega arith)) λ right s3 b3. omega arith)
            λ e. omega (arith, skip_spaces-le s1)

  parseexec-Finishes :
      (fuel : ℕ) (s : Text) → 4 * length s + 2 ≤ fuel → Finishes (length s) (parseexec fuel s)
  parseexec-Finishes zero s h = absurd (omega (arith, h))
  parseexec-Finishes (suc fuel) s h =
      let n = length s in
      let v = skip_spaces s in
      let le = skip_spaces-le s in
      if_both (Finishes n) (peek (40 ∷ []) s) _ _
        (λ e. Finishes-mono (length v) n _ le (parseblock-Finishes fuel v (omega arith)))
        λ e.
          with_redirs-Finishes (length v) n (parseredirs fuel (λ cmd. cmd) v) _
            (parseredirs-Finish fuel (λ cmd. cmd) v (omega arith))
            λ wrap s1 b1.
              Finishes-mono (length s1) n _ (omega arith)
                (parseargs-Finishes fuel [] wrap s1 (omega arith))

  parseblock-Finishes :
      (fuel : ℕ) (s : Text) → 4 * length s + 1 ≤ fuel → Finishes (length s) (parseblock fuel s)
  parseblock-Finishes zero s h = absurd (omega (arith, h))
  parseblock-Finishes (suc fuel) s h =
      let n = length s in
      let p = gettoken s in
      if_both (Finishes n) (not (peek (40 ∷ []) s)) _ _ (λ e. tt)
        λ e.
          let lt = peek-lt (40 ∷ []) s (not-true (peek (40 ∷ []) s) e) in
          then_parse-Finishes (length p.2) n (parseline fuel p.2) _
            (parseline-Finishes fuel p.2 (omega arith))
            λ cmd s2 b2.
              let q = gettoken s2 in
              if_both (Finishes n) (not (peek (41 ∷ []) s2)) _ _ (λ k. tt)
                λ k.
                  let le = gettoken-le s2 in
                  with_redirs-Finishes (length q.2) n (parseredirs fuel (λ c. c) q.2) _
                    (parseredirs-Finish fuel (λ c. c) q.2 (omega arith)) λ wrap s4 b4. omega arith

whole_finished : (n : ℕ) (r : Parsed) → Finishes n r → whole r ≢ out_of_fuel
unfolding whole
whole_finished n (parsed cmd s) h = left_over cmd (skip_spaces s)
  where
    left_over : (cmd : Cmd) (s : Text) → leftovers cmd s ≢ out_of_fuel
    left_over cmd [] = λ e. ground (arith, e)
    left_over cmd (c ∷ s) = λ e. ground (arith, e)
whole_finished n panicked h = λ e. ground (arith, e)
whole_finished n out_of_fuel h = absurd (ground (arith, h))

-- The parser comes to an end on each text, with a command or with a panic.
pub parsecmd_ends : (s : Text) → parsecmd s ≢ out_of_fuel
unfolding parsecmd
parsecmd_ends s =
    whole_finished (length s) (parseline (8 * length s + 8) s)
      (parseline-Finishes (8 * length s + 8) s (omega arith))
