-- ===== src/User/Sh/RoundTrip.antt =====
-- The parser reads a written command back.
use learn_mit_s.Common.{
  ℕ, zero, suc, ◌+◌, ◌*◌, ◌≤◌, ◌≡◌, refl, ap, ◌∙◌, false, List, [], ◌∷◌, length, All, arith,
}
use learn_mit_s.User.Sh.{
  Text, mem, starts, parsed, parseline, parsepipe, parseexec, whole, parsecmd,
}
use learn_mit_s.User.Sh.Syntax.{
  Redir, Arg, Exec, args, block, Pipe, one, bar, Line, last, semi, write_redirs, write_args,
  write_backs, write_exec, write_pipe, write_line, redirect_all, in_background, exec_cmd, pipe_cmd,
  line_cmd, HasWords, IsExec, IsPipe, IsLine,
}
use learn_mit_s.User.Sh.Tokens.{peek_not, stops-starts}
use learn_mit_s.User.Sh.Redirections.{
  write_redirs-starts, write_args-starts, write_redirs-IsTight, write_args-IsTight,
  parseredirs-write_redirs,
}
use learn_mit_s.User.Sh.Loops.{
  Ends, Ends-IsTight, Ends-no_redir, plain-no_redir, parseargs-write_args, parsebacks-write_backs,
}
use learn_mit_s.User.Sh.Fuel.{exec_need, pipe_need, line_need, line_need-le}
use learn_mit_s.User.Sh.Steps.{
  PipeEnds, LineEnds, PipeEnds-Ends, PipeEnds-no_bar, LineEnds-no_sign, LineEnds-IsTight,
  write_backs-PipeEnds, LineEnds-PipeEnds, write_line-IsTight, write_pipe-IsTight, exec_step,
  block_step, block_call, pipe_last, pipe_bar, line_backs, semis_semi, semis_last,
}

-- Arguments do not look like a block.
no_block :
    (rs : List Redir) (xs : List Arg) (rest : Text)
    → All HasWords xs
    → Ends rest
    → starts (40 ∷ []) (write_redirs rs (write_args xs rest)) ≡ false
unfolding mem
no_block rs xs rest h e = write_redirs-starts (40 ∷ []) rs (write_args xs rest) refl refl (
    write_args-starts (40 ∷ []) xs rest h (λ c p. ground (arith, p.1))
      (stops-starts (124 ∷ 41 ∷ 38 ∷ 59 ∷ []) (40 ∷ []) rest e λ c k. ground (arith, k)))

mutual
  unfolding write_exec IsExec exec_need exec_cmd mem

  parseexec-write_exec :
      (e : Exec) (fuel : ℕ) (rest : Text)
      → exec_need e ≤ fuel
      → IsExec e
      → Ends rest
      → parseexec fuel (write_exec e rest) ≡ parsed (exec_cmd e) rest
  parseexec-write_exec (args rs xs) zero rest b h n = absurd (omega (arith, b))
  parseexec-write_exec (block l rs) zero rest b h n = absurd (omega (arith, b))
  parseexec-write_exec (block l rs) (suc zero) rest b h n = absurd (omega (arith, b))
  parseexec-write_exec (args rs xs) (suc fuel) rest b h n =
      let behind = write_args xs rest in
      let tight = write_args-IsTight xs rest h.1 (Ends-IsTight rest n) in
      let t = write_redirs-IsTight rs behind tight in
      exec_step fuel (write_redirs rs behind) behind (redirect_all rs) _ t
        (peek_not (40 ∷ []) (write_redirs rs behind) t (no_block rs xs rest h.1 n))
        (parseredirs-write_redirs rs fuel (λ cmd. cmd) behind (omega arith) h.0 tight
          (write_args-starts (60 ∷ 62 ∷ []) xs rest h.1 plain-no_redir (Ends-no_redir rest n)))
        (parseargs-write_args xs fuel [] (redirect_all rs) rest (omega arith) h.1
          (omega (arith, h.2)) n)
  parseexec-write_exec (block l rs) (suc (suc fuel)) rest b h n =
      let behind = write_redirs rs rest in
      let t = Ends-IsTight rest n in
      block_call (suc fuel) (write_line l (41 ∷ behind))
      ∙ block_step fuel (write_line l (41 ∷ behind)) behind rest (line_cmd l) (redirect_all rs)
          (write_line-IsTight l (41 ∷ behind) h.0 refl)
          (parseline-write_line l fuel (41 ∷ behind) (omega arith) h.0 refl)
          (write_redirs-IsTight rs rest t)
          (parseredirs-write_redirs rs fuel (λ c. c) rest (omega arith) h.1 t
            (Ends-no_redir rest n))

  parsepipe-write_pipe :
      (p : Pipe) (fuel : ℕ) (rest : Text)
      → pipe_need p ≤ fuel
      → IsPipe p
      → PipeEnds rest
      → parsepipe fuel (write_pipe p rest) ≡ parsed (pipe_cmd p) rest
  parsepipe-write_pipe (one e) zero rest b h n = absurd (omega (arith, b))
  parsepipe-write_pipe (bar e p) zero rest b h n = absurd (omega (arith, b))
  parsepipe-write_pipe (one e) (suc fuel) rest b h n =
      let ends = PipeEnds-Ends rest n in
      let t = Ends-IsTight rest ends in
      pipe_last fuel (write_exec e rest) rest (exec_cmd e)
        (parseexec-write_exec e fuel rest (omega arith) h ends) t
        (peek_not (124 ∷ []) rest t (PipeEnds-no_bar rest n))
  parsepipe-write_pipe (bar e p) (suc fuel) rest b h n =
      let behind = write_pipe p rest in
      pipe_bar fuel (write_exec e (124 ∷ behind)) behind rest (exec_cmd e) (pipe_cmd p)
        (parseexec-write_exec e fuel (124 ∷ behind) (omega arith) h.0 refl)
        (write_pipe-IsTight p rest h.1 (Ends-IsTight rest (PipeEnds-Ends rest n)))
        (parsepipe-write_pipe p fuel rest (omega arith) h.1 n)

  parseline-write_line :
      (l : Line) (fuel : ℕ) (rest : Text)
      → line_need l ≤ fuel
      → IsLine l
      → LineEnds rest
      → parseline fuel (write_line l rest) ≡ parsed (line_cmd l) rest
  parseline-write_line (last p n) zero rest b h k = absurd (omega (arith, b))
  parseline-write_line (semi p n l) zero rest b h k = absurd (omega (arith, b))
  parseline-write_line (last p n) (suc fuel) rest b h k =
      let t = LineEnds-IsTight rest k in
      line_backs fuel _ (write_backs n rest) rest (pipe_cmd p) (in_background n (pipe_cmd p))
        (parsepipe-write_pipe p fuel (write_backs n rest) (omega arith) h
          (write_backs-PipeEnds n rest (LineEnds-PipeEnds rest k)))
        (parsebacks-write_backs n fuel (pipe_cmd p) rest (omega arith) t
          (LineEnds-no_sign 38 rest refl k))
      ∙ semis_last fuel (in_background n (pipe_cmd p)) rest k
  parseline-write_line (semi p n l) (suc fuel) rest b h k =
      let behind = 59 ∷ write_line l rest in
      line_backs fuel _ (write_backs n behind) behind (pipe_cmd p) (in_background n (pipe_cmd p))
        (parsepipe-write_pipe p fuel (write_backs n behind) (omega arith) h.0
          (write_backs-PipeEnds n behind refl))
        (parsebacks-write_backs n fuel (pipe_cmd p) behind (omega arith) refl refl)
      ∙ semis_semi fuel (write_line l rest) rest (in_background n (pipe_cmd p)) (line_cmd l)
          (write_line-IsTight l rest h.1 (LineEnds-IsTight rest k))
          (parseline-write_line l fuel rest (omega arith) h.1 k)

-- The parser reads a written command back: each line of the grammar whose words are words and whose commands
-- have fewer than 10 arguments parses to the command that it means, and no text is left over.
pub parsecmd-write_line :
    (l : Line) → IsLine l → parsecmd (write_line l []) ≡ parsed (line_cmd l) []
unfolding parsecmd whole
parsecmd-write_line l h = ap whole (
    parseline-write_line l (8 * length (write_line l []) + 8) [] (omega (arith, line_need-le l []))
      h refl)
