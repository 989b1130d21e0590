-- ===== src/User/Sh/Loops.antt =====
-- What the loops of the parser do on written redirections, arguments and `&`.
use learn_mit_s.Common.{
  ℕ, zero, suc, ◌+◌, ◌≤◌, ◌<◌, ◌≡◌, refl, sym, ap, ◌∙◌, not, true, false, List, [], ◌∷◌, ◌++◌,
  length, if-false, All, arith, leb, ◌==◌, if◌then◌else◌, length-append,
}
use learn_mit_s.User.Sh.{
  Text, maxargs, Cmd, execcmd, backcmd, mem, whitespace, skip_spaces, token, gettoken, starts, peek,
  Parsed, parsed, panicked, Wrap, parseredirs, parseargs, parsebacks, with_redirs,
}
use learn_mit_s.User.Sh.Syntax.{
  Arg, write_word, write_redirs, write_args, write_backs, redirect_all, redirect_args,
  in_background, names, IsPlain, HasWords,
}
use learn_mit_s.User.Sh.Tokens.{
  IsTight, skip_spaces_tight, peek_not, word-IsTight, gettoken-word, gettoken-symbol, word_starts,
  stops, stops-starts,
}
use learn_mit_s.User.Sh.Redirections.{
  write_args-starts, write_redirs-IsTight, write_args-IsTight, parseredirs-write_redirs,
}

-- The ends of `parseargs`: at a symbol and at the end of the text.
args_end :
    (fuel : ℕ) (argv : List Text) (wrap : Wrap) (rest : Text)
    → stops (124 ∷ 41 ∷ 38 ∷ 59 ∷ []) rest ≡ true
    → IsTight rest
    → parseargs (suc fuel) argv wrap rest ≡ parsed (wrap (execcmd argv)) rest
unfolding parseargs peek skip_spaces gettoken token mem
args_end fuel argv wrap [] h t = refl
args_end fuel argv wrap (c ∷ rest) h t = rw t (rw h refl)

-- A round of `parseargs` on a word.
args_round :
    (fuel : ℕ) (argv : List Text) (wrap : Wrap) (s s1 w : Text)
    → peek (124 ∷ 41 ∷ 38 ∷ 59 ∷ []) s ≡ false
    → gettoken s ≡ (97, w, s1)
    → leb maxargs (length (argv ++ w ∷ [])) ≡ false
    → parseargs (suc fuel) argv wrap s
      ≡ with_redirs (parseredirs fuel wrap s1) (λ w1 s2. parseargs fuel (argv ++ w ∷ []) w1 s2)
unfolding parseargs
args_round fuel argv wrap s s1 w h e b =
    let after : ℕ × Text × Text → Parsed = λ p.
      if p.0 == 0
      then parsed (wrap (execcmd argv)) p.2
      else if not (p.0 == 97)
      then panicked
      else if leb maxargs (length (argv ++ p.1 ∷ []))
      then panicked
      else with_redirs (parseredirs fuel wrap p.2)
          (λ w1 s2. parseargs fuel (argv ++ p.1 ∷ []) w1 s2) in
    rw h (ap after e ∙ if-false _ _ b)

-- Units of fuel for written arguments.
abbrev pub args_need : List Arg → ℕ
args_need [] = 1
args_need (a ∷ xs) = 2 + length a.redirs + args_need xs

abbrev pub Ends : Text → Type 0
Ends rest = stops (124 ∷ 41 ∷ 38 ∷ 59 ∷ []) rest ≡ true

pub Ends-no_redir : (rest : Text) → Ends rest → starts (60 ∷ 62 ∷ []) rest ≡ false
unfolding mem
Ends-no_redir rest e =
    stops-starts (124 ∷ 41 ∷ 38 ∷ 59 ∷ []) (60 ∷ 62 ∷ []) rest e λ c h. ground (arith, h)

pub Ends-IsTight : (rest : Text) → Ends rest → IsTight rest
unfolding mem
Ends-IsTight rest e =
    stops-starts (124 ∷ 41 ∷ 38 ∷ 59 ∷ []) whitespace rest e λ c h. ground (arith, h)

pub plain-no_redir : (c : ℕ) → IsPlain c → mem c (60 ∷ 62 ∷ []) ≡ false
unfolding mem
plain-no_redir c h = ground (arith, h.1)

plain-no_end : (c : ℕ) → IsPlain c → mem c (124 ∷ 41 ∷ 38 ∷ 59 ∷ []) ≡ false
unfolding mem
plain-no_end c h = ground (arith, h.1)

append-nil : (argv : List Text) → argv ++ [] ≡ argv
append-nil [] = refl
append-nil (a ∷ argv) = ap (λ ys. a ∷ ys) (append-nil argv)

append_one :
    (argv : List Text) (w : Text) (xs : List Text) → (argv ++ w ∷ []) ++ xs ≡ argv ++ w ∷ xs
append_one [] w xs = refl
append_one (a ∷ argv) w xs = ap (λ ys. a ∷ ys) (append_one argv w xs)

few :
    (argv : List Text) (w : Text) (xs : List Arg)
    → length argv + suc (length xs) < maxargs
    → leb maxargs (length (argv ++ w ∷ [])) ≡ false
few argv w xs h = rw (length-append argv (w ∷ [])) (ground arith)

pub parseargs-write_args :
    (xs : List Arg) (fuel : ℕ) (argv : List Text) (wrap : Wrap) (rest : Text)
    → args_need xs ≤ fuel
    → All HasWords xs
    → length argv + length xs < maxargs
    → Ends rest
    → parseargs fuel argv wrap (write_args xs rest)
      ≡ parsed (redirect_args xs (wrap (execcmd (argv ++ names xs)))) rest
parseargs-write_args [] zero argv wrap rest b all m e = absurd (omega (arith, b))
parseargs-write_args (a ∷ xs) zero argv wrap rest b all m e = absurd (omega (arith, b))
parseargs-write_args [] (suc fuel) argv wrap rest b all m e =
    args_end fuel argv wrap rest e (Ends-IsTight rest e)
    ∙ ap (λ l. parsed (wrap (execcmd l)) rest) (sym (append-nil argv))
parseargs-write_args (a ∷ xs) (suc fuel) argv wrap rest b ((w, rs), all) m e =
    let behind = write_args xs rest in
    let s1 = write_redirs a.redirs behind in
    let tight = write_args-IsTight xs rest all (Ends-IsTight rest e) in
    let no_redir =
      write_args-starts (60 ∷ 62 ∷ []) xs rest all plain-no_redir (Ends-no_redir rest e) in
    let t1 = write_redirs-IsTight a.redirs behind tight in
    let s = write_word a.name s1 in
    args_round fuel argv wrap s s1 a.name
      (peek_not _ s (word-IsTight a.name s1 w) (word_starts _ a.name s1 w plain-no_end))
      (gettoken-word a.name s1 w t1) (few argv a.name xs m)
    ∙ ap (λ r. with_redirs r (λ w1 s2. parseargs fuel (argv ++ a.name ∷ []) w1 s2))
        (parseredirs-write_redirs a.redirs fuel wrap behind (omega arith) rs tight no_redir)
    ∙ parseargs-write_args xs fuel (argv ++ a.name ∷ []) (λ cmd. redirect_all a.redirs (wrap cmd))
        rest (omega arith) all (rw (length-append argv (a.name ∷ [])) (omega arith)) e
    ∙ ap (λ l. parsed (redirect_args xs (redirect_all a.redirs (wrap (execcmd l)))) rest)
        (append_one argv a.name (names xs))

-- The loop on `&`.
backs_round :
    (fuel : ℕ) (cmd : Cmd) (rest : Text)
    → IsTight rest
    → parsebacks (suc fuel) cmd (38 ∷ rest) ≡ parsebacks fuel (backcmd cmd) rest
unfolding parsebacks peek skip_spaces mem
backs_round fuel cmd rest t =
    ap (λ r. parsebacks fuel (backcmd cmd) r.2) (gettoken-symbol 38 rest refl refl t)

backs_end :
    (fuel : ℕ) (cmd : Cmd) (rest : Text)
    → IsTight rest
    → peek (38 ∷ []) rest ≡ false
    → parsebacks (suc fuel) cmd rest ≡ parsed cmd rest
unfolding parsebacks
backs_end fuel cmd rest t h = rw h (ap (parsed cmd) (skip_spaces_tight rest t))

pub write_backs-IsTight : (n : ℕ) (rest : Text) → IsTight rest → IsTight (write_backs n rest)
unfolding mem
write_backs-IsTight zero rest t = t
write_backs-IsTight (suc n) rest t = refl

pub parsebacks-write_backs :
    (n fuel : ℕ) (cmd : Cmd) (rest : Text)
    → n < fuel
    → IsTight rest
    → starts (38 ∷ []) rest ≡ false
    → parsebacks fuel cmd (write_backs n rest) ≡ parsed (in_background n cmd) rest
parsebacks-write_backs n zero cmd rest b t h = absurd (omega (arith, b))
parsebacks-write_backs zero (suc fuel) cmd rest b t h =
    backs_end fuel cmd rest t (peek_not _ rest t h)
parsebacks-write_backs (suc n) (suc fuel) cmd rest b t h =
    backs_round fuel cmd (write_backs n rest) (write_backs-IsTight n rest t)
    ∙ parsebacks-write_backs n fuel (backcmd cmd) rest (omega arith) t h
