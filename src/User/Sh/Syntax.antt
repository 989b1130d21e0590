-- ===== src/User/Sh/Syntax.antt =====
-- The commands of the shell as a grammar, how they are written, and what they mean.
use learn_mit_s.Common.{ℕ, zero, suc, ◌<◌, ◌≡◌, false, List, [], ◌∷◌, ◌++◌, length, All}
use learn_mit_s.User.Sh.{
  Text, maxargs, Cmd, execcmd, redircmd, pipecmd, listcmd, backcmd, mem, whitespace, symbols,
}

-- `<`, `>` and `>>`, each with a file.
pub data Redir : Type 0 where
  from : Text → Redir
  to : Text → Redir
  append : Text → Redir

pub record Arg : Type 0 where
  pub name : Text
  pub redirs : List Redir

-- Redirections and arguments, each with redirections behind it, or a line in brackets; pipes of these; and
-- pipes with a number of `&` behind them, with `;` in between.
mutual
  pub data Exec : Type 0 where
    args : List Redir → List Arg → Exec
    block : Line → List Redir → Exec

  pub data Pipe : Type 0 where
    one : Exec → Pipe
    bar : Exec → Pipe → Pipe

  pub data Line : Type 0 where
    last : Pipe → ℕ → Line
    semi : Pipe → ℕ → Line → Line

-- How each is written, before a text. A space stands behind each word.
abbrev pub write_word : Text → Text → Text
write_word w rest = w ++ 32 ∷ rest

abbrev pub write_redir : Redir → Text → Text
write_redir (from w) rest = 60 ∷ write_word w rest
write_redir (to w) rest = 62 ∷ write_word w rest
write_redir (append w) rest = 62 ∷ 62 ∷ write_word w rest

abbrev pub write_redirs : List Redir → Text → Text
write_redirs [] rest = rest
write_redirs (r ∷ rs) rest = write_redir r (write_redirs rs rest)

abbrev pub write_args : List Arg → Text → Text
write_args [] rest = rest
write_args (a ∷ xs) rest = write_word a.name (write_redirs a.redirs (write_args xs rest))

abbrev pub write_backs : ℕ → Text → Text
write_backs zero rest = rest
write_backs (suc n) rest = 38 ∷ write_backs n rest

unfoldable mutual
  pub write_exec : Exec → Text → Text
  write_exec (args rs xs) rest = write_redirs rs (write_args xs rest)
  write_exec (block l rs) rest = 40 ∷ write_line l (41 ∷ write_redirs rs rest)

  pub write_pipe : Pipe → Text → Text
  write_pipe (one e) rest = write_exec e rest
  write_pipe (bar e p) rest = write_exec e (124 ∷ write_pipe p rest)

  pub write_line : Line → Text → Text
  write_line (last p n) rest = write_pipe p (write_backs n rest)
  write_line (semi p n l) rest = write_pipe p (write_backs n (59 ∷ write_line l rest))

-- What each means. A later redirection stands outside an earlier one.
abbrev pub redirect : Redir → Cmd → Cmd
redirect (from w) cmd = redircmd cmd w 0 0
redirect (to w) cmd = redircmd cmd w 0x601 1
redirect (append w) cmd = redircmd cmd w 0x201 1

abbrev pub redirect_all : List Redir → Cmd → Cmd
redirect_all [] cmd = cmd
redirect_all (r ∷ rs) cmd = redirect_all rs (redirect r cmd)

abbrev pub redirect_args : List Arg → Cmd → Cmd
redirect_args [] cmd = cmd
redirect_args (a ∷ xs) cmd = redirect_args xs (redirect_all a.redirs cmd)

abbrev pub in_background : ℕ → Cmd → Cmd
in_background zero cmd = cmd
in_background (suc n) cmd = in_background n (backcmd cmd)

abbrev pub names : List Arg → List Text
names [] = []
names (a ∷ xs) = a.name ∷ names xs

unfoldable mutual
  pub exec_cmd : Exec → Cmd
  exec_cmd (args rs xs) = redirect_args xs (redirect_all rs (execcmd (names xs)))
  exec_cmd (block l rs) = redirect_all rs (line_cmd l)

  pub pipe_cmd : Pipe → Cmd
  pipe_cmd (one e) = exec_cmd e
  pipe_cmd (bar e p) = pipecmd (exec_cmd e) (pipe_cmd p)

  pub line_cmd : Line → Cmd
  line_cmd (last p n) = in_background n (pipe_cmd p)
  line_cmd (semi p n l) = listcmd (in_background n (pipe_cmd p)) (line_cmd l)

-- A word has a byte, and no byte of it is white space or a symbol.
abbrev pub IsPlain : ℕ → Type 0
IsPlain c = (mem c whitespace ≡ false) × (mem c symbols ≡ false)

abbrev pub IsWord : Text → Type 0
IsWord w = (0 < length w) × All IsPlain w

abbrev pub HasWord : Redir → Type 0
HasWord (from w) = IsWord w
HasWord (to w) = IsWord w
HasWord (append w) = IsWord w

abbrev pub HasWords : Arg → Type 0
HasWords a = IsWord a.name × All HasWord a.redirs

-- All words are words, and a command has fewer than `MAXARGS` arguments.
unfoldable mutual
  pub IsExec : Exec → Type 0
  IsExec (args rs xs) = All HasWord rs × All HasWords xs × (length xs < maxargs)
  IsExec (block l rs) = IsLine l × All HasWord rs

  pub IsPipe : Pipe → Type 0
  IsPipe (one e) = IsExec e
  IsPipe (bar e p) = IsExec e × IsPipe p

  pub IsLine : Line → Type 0
  IsLine (last p n) = IsPipe p
  IsLine (semi p n l) = IsPipe p × IsLine l
