-- ===== src/User/Sh/Steps.antt =====
-- What a call does by what the calls in it give, and how a written command starts.
use learn_mit_s.Common.{
  ℕ, zero, suc, ◌≡◌, refl, ap, ◌∙◌, not, true, false, if◌then◌else◌, if-false, [], ◌∷◌, arith,
}
use learn_mit_s.User.Sh.{
  Text, Cmd, pipecmd, listcmd, mem, whitespace, skip_spaces, gettoken, starts, peek, Parsed, parsed,
  panicked, then_parse, redirs, parseredirs, parseargs, parsebacks, with_redirs, parseline,
  parsepipe, parseexec, parseblock,
}
use learn_mit_s.User.Sh.Syntax.{
  Exec, args, block, Pipe, one, bar, Line, last, semi, write_args, write_backs, write_exec,
  write_pipe, write_line, IsExec, IsPipe, IsLine,
}
use learn_mit_s.User.Sh.Tokens.{
  IsTight, skip_spaces_tight, peek_not, gettoken-symbol, stops, stops-starts,
}
use learn_mit_s.User.Sh.Redirections.{write_redirs-IsTight, write_args-IsTight}
use learn_mit_s.User.Sh.Loops.{Ends, write_backs-IsTight}

-- What may stand behind a pipe and behind a line.
abbrev pub PipeEnds : Text → Type 0
PipeEnds rest = stops (41 ∷ 38 ∷ 59 ∷ []) rest ≡ true

abbrev pub LineEnds : Text → Type 0
LineEnds rest = stops (41 ∷ []) rest ≡ true

pub PipeEnds-Ends : (rest : Text) → PipeEnds rest → Ends rest
unfolding mem
PipeEnds-Ends [] h = refl
PipeEnds-Ends (c ∷ rest) h = ground (arith, h)

pub PipeEnds-no_bar : (rest : Text) → PipeEnds rest → starts (124 ∷ []) rest ≡ false
unfolding mem
PipeEnds-no_bar rest h = stops-starts (41 ∷ 38 ∷ 59 ∷ []) (124 ∷ []) rest h λ c k. ground (arith, k)

pub LineEnds-no_sign :
    (d : ℕ) (rest : Text) → mem d (41 ∷ []) ≡ false → LineEnds rest → starts (d ∷ []) rest ≡ false
unfolding mem
LineEnds-no_sign d rest k h = stops-starts (41 ∷ []) (d ∷ []) rest h λ c e. ground (arith, k, e)

pub LineEnds-IsTight : (rest : Text) → LineEnds rest → IsTight rest
unfolding mem
LineEnds-IsTight rest h = stops-starts (41 ∷ []) whitespace rest h λ c k. ground (arith, k)

pub write_backs-PipeEnds : (n : ℕ) (rest : Text) → PipeEnds rest → PipeEnds (write_backs n rest)
unfolding mem
write_backs-PipeEnds zero rest h = h
write_backs-PipeEnds (suc n) rest h = refl

pub LineEnds-PipeEnds : (rest : Text) → LineEnds rest → PipeEnds rest
unfolding mem
LineEnds-PipeEnds [] h = refl
LineEnds-PipeEnds (c ∷ rest) h = ground (arith, h)

-- How a written command starts.
mutual
  unfolding write_exec IsExec mem

  write_exec-IsTight :
      (e : Exec) (rest : Text) → IsExec e → IsTight rest → IsTight (write_exec e rest)
  write_exec-IsTight (args rs xs) rest h t =
      write_redirs-IsTight rs (write_args xs rest) (write_args-IsTight xs rest h.1 t)
  write_exec-IsTight (block l rs) rest h t = refl

  pub write_pipe-IsTight :
      (p : Pipe) (rest : Text) → IsPipe p → IsTight rest → IsTight (write_pipe p rest)
  write_pipe-IsTight (one e) rest h t = write_exec-IsTight e rest h t
  write_pipe-IsTight (bar e p) rest h t = write_exec-IsTight e (124 ∷ write_pipe p rest) h.0 refl

pub write_line-IsTight :
    (l : Line) (rest : Text) → IsLine l → IsTight rest → IsTight (write_line l rest)
unfolding write_exec IsExec mem
write_line-IsTight (last p n) rest h t =
    write_pipe-IsTight p (write_backs n rest) h (write_backs-IsTight n rest t)
write_line-IsTight (semi p n l) rest h t =
    write_pipe-IsTight p (write_backs n (59 ∷ write_line l rest)) h.0
      (write_backs-IsTight n (59 ∷ write_line l rest) refl)

-- Each function by what the calls in it give.
pub exec_step :
    (fuel : ℕ) (s s1 : Text) (wrap : Cmd → Cmd) (r : Parsed)
    → IsTight s
    → peek (40 ∷ []) s ≡ false
    → parseredirs fuel (λ cmd. cmd) s ≡ redirs wrap s1
    → parseargs fuel [] wrap s1 ≡ r
    → parseexec (suc fuel) s ≡ r
unfolding parseline
exec_step fuel s s1 wrap r t h e k =
    let go : Text → Parsed =
      λ v. with_redirs (parseredirs fuel (λ cmd. cmd) v) (λ w u. parseargs fuel [] w u) in
    if-false _ _ h
    ∙ ap go (skip_spaces_tight s t)
    ∙ ap (λ p. with_redirs p (λ w u. parseargs fuel [] w u)) e
    ∙ k

pub block_step :
    (fuel : ℕ) (s rest rest1 : Text) (cmd : Cmd) (wrap : Cmd → Cmd)
    → IsTight s
    → parseline fuel s ≡ parsed cmd (41 ∷ rest)
    → IsTight rest
    → parseredirs fuel (λ c. c) rest ≡ redirs wrap rest1
    → parseblock (suc fuel) (40 ∷ s) ≡ parsed (wrap cmd) rest1
unfolding parseline peek skip_spaces mem
block_step fuel s rest rest1 cmd wrap t e u k =
    let close : Cmd → Text → Parsed = λ c v.
      if not (peek (41 ∷ []) v)
      then panicked
      else with_redirs (parseredirs fuel (λ d. d) (gettoken v).2) (λ w x. parsed (w c) x) in
    ap (λ p. then_parse (parseline fuel p.2) close) (gettoken-symbol 40 s refl refl t)
    ∙ ap (λ p. then_parse p close) e
    ∙ ap (λ p. with_redirs (parseredirs fuel (λ d. d) p.2) (λ w x. parsed (w cmd) x))
        (gettoken-symbol 41 rest refl refl u)
    ∙ ap (λ p. with_redirs p (λ w x. parsed (w cmd) x)) k

pub block_call : (fuel : ℕ) (s : Text) → parseexec (suc fuel) (40 ∷ s) ≡ parseblock fuel (40 ∷ s)
unfolding parseline peek skip_spaces mem
block_call fuel s = refl

-- `parsepipe` and `parseline` behind the first command.
abbrev bars : ℕ → Cmd → Text → Parsed
bars fuel cmd s =
    if peek (124 ∷ []) s
    then then_parse (parsepipe fuel (gettoken s).2) (λ right rest. parsed (pipecmd cmd right) rest)
    else parsed cmd (skip_spaces s)

abbrev semis : ℕ → Cmd → Text → Parsed
semis fuel cmd s =
    if peek (59 ∷ []) s
    then then_parse (parseline fuel (gettoken s).2) (λ right rest. parsed (listcmd cmd right) rest)
    else parsed cmd (skip_spaces s)

pub pipe_last :
    (fuel : ℕ) (s rest : Text) (cmd : Cmd)
    → parseexec fuel s ≡ parsed cmd rest
    → IsTight rest
    → peek (124 ∷ []) rest ≡ false
    → parsepipe (suc fuel) s ≡ parsed cmd rest
unfolding parseline
pipe_last fuel s rest cmd e t h =
    ap (λ p. then_parse p (bars fuel)) e
    ∙ if-false _ _ h
    ∙ ap (parsed cmd) (skip_spaces_tight rest t)

pub pipe_bar :
    (fuel : ℕ) (s rest rest1 : Text) (cmd right : Cmd)
    → parseexec fuel s ≡ parsed cmd (124 ∷ rest)
    → IsTight rest
    → parsepipe fuel rest ≡ parsed right rest1
    → parsepipe (suc fuel) s ≡ parsed (pipecmd cmd right) rest1
unfolding parseline peek skip_spaces mem
pipe_bar fuel s rest rest1 cmd right e t k =
    ap (λ p. then_parse p (bars fuel)) e
    ∙ ap (λ p. then_parse (parsepipe fuel p.2) (λ r x. parsed (pipecmd cmd r) x))
        (gettoken-symbol 124 rest refl refl t)
    ∙ ap (λ p. then_parse p (λ r x. parsed (pipecmd cmd r) x)) k

pub line_backs :
    (fuel : ℕ) (s s1 s2 : Text) (cmd cmd1 : Cmd)
    → parsepipe fuel s ≡ parsed cmd s1
    → parsebacks fuel cmd s1 ≡ parsed cmd1 s2
    → parseline (suc fuel) s ≡ semis fuel cmd1 s2
unfolding parseline
line_backs fuel s s1 s2 cmd cmd1 e k =
    ap (λ p. then_parse p (λ c v. then_parse (parsebacks fuel c v) (semis fuel))) e
    ∙ ap (λ p. then_parse p (semis fuel)) k

pub semis_semi :
    (fuel : ℕ) (rest rest1 : Text) (cmd right : Cmd)
    → IsTight rest
    → parseline fuel rest ≡ parsed right rest1
    → semis fuel cmd (59 ∷ rest) ≡ parsed (listcmd cmd right) rest1
unfolding peek skip_spaces mem
semis_semi fuel rest rest1 cmd right t k =
    ap (λ p. then_parse (parseline fuel p.2) (λ r x. parsed (listcmd cmd r) x))
      (gettoken-symbol 59 rest refl refl t)
    ∙ ap (λ p. then_parse p (λ r x. parsed (listcmd cmd r) x)) k

pub semis_last :
    (fuel : ℕ) (cmd : Cmd) (rest : Text) → LineEnds rest → semis fuel cmd rest ≡ parsed cmd rest
unfolding mem
semis_last fuel cmd rest k =
    let t = LineEnds-IsTight rest k in
    if-false _ _ (peek_not (59 ∷ []) rest t (LineEnds-no_sign 59 rest refl k))
    ∙ ap (parsed cmd) (skip_spaces_tight rest t)
