-- ===== src/User/Sh/Fuel.antt =====
-- The fuel that a written command takes, and that its length gives it.
use learn_mit_s.Common.{
  ℕ, zero, suc, ◌+◌, ◌*◌, ◌≤◌, ◌≡◌, List, [], ◌∷◌, length, arith, length-append,
}
use learn_mit_s.User.Sh.{Text}
use learn_mit_s.User.Sh.Syntax.{
  Redir, from, to, append, Arg, Exec, args, block, Pipe, one, bar, Line, last, semi, write_redir,
  write_redirs, write_args, write_backs, write_exec, write_pipe, write_line,
}
use learn_mit_s.User.Sh.Loops.{args_need}

unfoldable mutual
  pub exec_need : Exec → ℕ
  exec_need (args rs xs) = 2 + length rs + args_need xs
  exec_need (block l rs) = 3 + line_need l + length rs

  pub pipe_need : Pipe → ℕ
  pipe_need (one e) = 1 + exec_need e
  pipe_need (bar e p) = 1 + exec_need e + pipe_need p

  pub line_need : Line → ℕ
  line_need (last p n) = 2 + pipe_need p + n
  line_need (semi p n l) = 2 + pipe_need p + n + line_need l

length-write_redir : (r : Redir) (rest : Text) → suc (length rest) ≤ length (write_redir r rest)
length-write_redir (from w) rest = omega (arith, length-append w (32 ∷ rest))
length-write_redir (to w) rest = omega (arith, length-append w (32 ∷ rest))
length-write_redir (append w) rest = omega (arith, length-append w (32 ∷ rest))

length-write_redirs :
    (rs : List Redir) (rest : Text) → length rs + length rest ≤ length (write_redirs rs rest)
length-write_redirs [] rest = omega arith
length-write_redirs (r ∷ rs) rest =
    omega (arith, length-write_redir r (write_redirs rs rest), length-write_redirs rs rest)

args_need-le :
    (xs : List Arg) (rest : Text)
    → args_need xs + 2 * length rest ≤ 1 + 2 * length (write_args xs rest)
args_need-le [] rest = omega arith
args_need-le (a ∷ xs) rest =
    let behind = write_args xs rest in
    omega (
      arith,
      length-append a.name (32 ∷ write_redirs a.redirs behind),
      length-write_redirs a.redirs behind,
      args_need-le xs rest,
    )

length-write_backs : (n : ℕ) (rest : Text) → length (write_backs n rest) ≡ n + length rest
length-write_backs zero rest = omega arith
length-write_backs (suc n) rest = omega (arith, length-write_backs n rest)

mutual
  unfolding exec_need write_exec

  exec_need-le :
      (e : Exec) (rest : Text) → exec_need e + 8 * length rest ≤ 3 + 8 * length (write_exec e rest)
  exec_need-le (args rs xs) rest =
      omega (arith, length-write_redirs rs (write_args xs rest), args_need-le xs rest)
  exec_need-le (block l rs) rest =
      let behind = write_redirs rs rest in
      omega (arith, line_need-le l (41 ∷ behind), length-write_redirs rs rest)

  pipe_need-le :
      (p : Pipe) (rest : Text) → pipe_need p + 8 * length rest ≤ 4 + 8 * length (write_pipe p rest)
  pipe_need-le (one e) rest = omega (arith, exec_need-le e rest)
  pipe_need-le (bar e p) rest =
      omega (arith, exec_need-le e (124 ∷ write_pipe p rest), pipe_need-le p rest)

  pub line_need-le :
      (l : Line) (rest : Text) → line_need l + 8 * length rest ≤ 6 + 8 * length (write_line l rest)
  line_need-le (last p n) rest =
      omega (arith, pipe_need-le p (write_backs n rest), length-write_backs n rest)
  line_need-le (semi p n l) rest =
      let behind = 59 ∷ write_line l rest in
      omega (
        arith,
        pipe_need-le p (write_backs n behind),
        length-write_backs n behind,
        line_need-le l rest,
      )
