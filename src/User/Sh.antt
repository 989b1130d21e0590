-- ===== src/User/Sh.antt =====
-- lab1/user/sh.c: the tokenizer and the parser. The text between `s` and `es` is the list of its bytes, none
-- of them 0, so `*s` at `es` is 0. A token between `q` and `eq` is the list of its bytes, which is the string
-- that `nulterminate` leaves.
pub mod Syntax
pub mod Tokens
pub mod Redirections
pub mod Loops
pub mod Fuel
pub mod Steps
pub mod RoundTrip
pub mod Shrinks
pub mod Progress
mod Tests
use learn_mit_s.Common.{
  ℕ, zero, suc, ◌+◌, ◌*◌, Bool, false, not, ◌&&◌, ◌||◌, List, [], ◌∷◌, ◌++◌, length, leb, ◌==◌,
  if◌then◌else◌,
}

abbrev pub Text : Type 0
Text = List ℕ

abbrev pub maxargs : ℕ
maxargs = 10

-- `struct cmd` and the structures that start like it. `mode` is the flags of `open`.
pub data Cmd : Type 0 where
  execcmd : List Text → Cmd
  redircmd : Cmd → Text → ℕ → ℕ → Cmd
  pipecmd : Cmd → Cmd → Cmd
  listcmd : Cmd → Cmd → Cmd
  backcmd : Cmd → Cmd

-- `strchr(toks, c)` for a `c` other than 0.
unfoldable pub mem : ℕ → Text → Bool
mem c [] = false
mem c (d ∷ toks) = c == d || mem c toks

-- " \t\r\n\v"
abbrev pub whitespace : Text
whitespace = 32 ∷ 9 ∷ 13 ∷ 10 ∷ 11 ∷ []

-- "<|>&;()"
abbrev pub symbols : Text
symbols = 60 ∷ 124 ∷ 62 ∷ 38 ∷ 59 ∷ 40 ∷ 41 ∷ []

-- `while(s < es && strchr(whitespace, *s)) s++`
unfoldable pub skip_spaces : Text → Text
unfolding mem
skip_spaces [] = []
skip_spaces (c ∷ s) = let rest = skip_spaces s in if mem c whitespace then rest else c ∷ s

-- The loop for a word: the word and what is behind it.
unfoldable pub word : Text → Text × Text
unfolding mem
word [] = ([], [])
word (c ∷ s) =
    let (w, rest) = word s in
    if not (mem c whitespace) && not (mem c symbols) then (c ∷ w, rest) else ([], c ∷ s)

-- `case '>'`, behind it.
unfoldable pub greater : Text → ℕ × Text × Text
greater [] = (62, 62 ∷ [], [])
greater (c ∷ s) = if c == 62 then (43, 62 ∷ 62 ∷ [], s) else (62, 62 ∷ [], c ∷ s)

-- The `switch` of `gettoken`: `ret`, the token, and the text behind it. 97 is 'a', 43 is '+'.
unfoldable pub token : Text → ℕ × Text × Text
unfolding mem word greater
token [] = (0, [], [])
token (c ∷ s) =
    if mem c (124 ∷ 40 ∷ 41 ∷ 59 ∷ 38 ∷ 60 ∷ [])
    then (c, c ∷ [], s)
    else if c == 62
    then greater s
    else (let (w, rest) = word (c ∷ s) in (97, w, rest))

unfoldable pub gettoken : Text → ℕ × Text × Text
unfolding skip_spaces token
gettoken s = let (ret, t, rest) = token (skip_spaces s) in (ret, t, skip_spaces rest)

abbrev pub starts : Text → Text → Bool
starts toks [] = false
starts toks (c ∷ s) = mem c toks

-- The answer of `peek`; `*ps` is `skip_spaces s` then.
unfoldable pub peek : Text → Text → Bool
unfolding skip_spaces mem
peek toks s = starts toks (skip_spaces s)

-- A call ends with a command and the text left, or panics.
pub data Parsed : Type 0 where
  parsed : Cmd → Text → Parsed
  panicked : Parsed
  out_of_fuel : Parsed

abbrev pub then_parse : Parsed → (Cmd → Text → Parsed) → Parsed
then_parse (parsed cmd s) k = k cmd s
then_parse panicked k = panicked
then_parse out_of_fuel k = out_of_fuel

-- O_RDONLY is 0, O_WRONLY | O_CREATE | O_TRUNC is 0x601, and O_WRONLY | O_CREATE is 0x201.
unfoldable pub redirected : ℕ → Cmd → Text → Cmd
redirected tok cmd file =
    if tok == 60
    then redircmd cmd file 0 0
    else if tok == 62
    then redircmd cmd file 0x601 1
    else redircmd cmd file 0x201 1

-- The redirections as changes of `ret`: `parseexec` fills in the arguments of the command inside later.
abbrev pub Wrap : Type 0
Wrap = Cmd → Cmd

pub data Redirs : Type 0 where
  redirs : Wrap → Text → Redirs
  panicked : Redirs
  out_of_fuel : Redirs

-- `parseredirs` on a command that is `wrap` of something.
unfoldable pub parseredirs : ℕ → Wrap → Text → Redirs
unfolding peek gettoken redirected
parseredirs zero wrap s = Redirs.out_of_fuel
parseredirs (suc fuel) wrap s =
    let (tok, t, s1) = gettoken s in
    let (word_tok, file, s2) = gettoken s1 in
    let rest = parseredirs fuel (λ cmd. redirected tok (wrap cmd) file) s2 in
    if not (peek (60 ∷ 62 ∷ []) s)
    then redirs wrap (skip_spaces s)
    else if not (word_tok == 97)
    then Redirs.panicked
    else rest

abbrev pub with_redirs : Redirs → (Wrap → Text → Parsed) → Parsed
with_redirs (redirs wrap s) k = k wrap s
with_redirs Redirs.panicked k = panicked
with_redirs Redirs.out_of_fuel k = out_of_fuel

-- The loop of `parseexec`, with the arguments so far.
unfoldable pub parseargs : ℕ → List Text → Wrap → Text → Parsed
unfolding peek gettoken parseredirs
parseargs zero argv wrap s = out_of_fuel
parseargs (suc fuel) argv wrap s =
    let (tok, q, s1) = gettoken s in
    let argv1 = argv ++ q ∷ [] in
    let rest = with_redirs (parseredirs fuel wrap s1) (λ w s2. parseargs fuel argv1 w s2) in
    if peek (124 ∷ 41 ∷ 38 ∷ 59 ∷ []) s
    then parsed (wrap (execcmd argv)) (skip_spaces s)
    else if tok == 0
    then parsed (wrap (execcmd argv)) s1
    else if not (tok == 97)
    then panicked
    else if leb maxargs (length argv1)
    then panicked
    else rest

-- `while(peek(ps, es, "&"))` of `parseline`.
unfoldable pub parsebacks : ℕ → Cmd → Text → Parsed
unfolding peek gettoken
parsebacks zero cmd s = out_of_fuel
parsebacks (suc fuel) cmd s =
    let (tok, t, s1) = gettoken s in
    let rest = parsebacks fuel (backcmd cmd) s1 in
    if peek (38 ∷ []) s then rest else parsed cmd (skip_spaces s)

-- The calls of one another take one from the fuel, as does each round of a loop.
unfoldable mutual
  unfolding peek gettoken parseredirs parseargs parsebacks

  pub parseline : ℕ → Text → Parsed
  parseline zero s = out_of_fuel
  parseline (suc fuel) s = then_parse (parsepipe fuel s) λ cmd s1.
      then_parse (parsebacks fuel cmd s1) λ cmd1 s2.
        let (tok, t, s3) = gettoken s2 in
        let rest = then_parse (parseline fuel s3) (λ right s4. parsed (listcmd cmd1 right) s4) in
        if peek (59 ∷ []) s2 then rest else parsed cmd1 (skip_spaces s2)

  pub parsepipe : ℕ → Text → Parsed
  parsepipe zero s = out_of_fuel
  parsepipe (suc fuel) s = then_parse (parseexec fuel s) λ cmd s1.
      let (tok, t, s2) = gettoken s1 in
      let rest = then_parse (parsepipe fuel s2) (λ right s3. parsed (pipecmd cmd right) s3) in
      if peek (124 ∷ []) s1 then rest else parsed cmd (skip_spaces s1)

  pub parseexec : ℕ → Text → Parsed
  parseexec zero s = out_of_fuel
  parseexec (suc fuel) s =
      let block = parseblock fuel (skip_spaces s) in
      let args =
        with_redirs (parseredirs fuel (λ cmd. cmd) (skip_spaces s))
          (λ wrap s1. parseargs fuel [] wrap s1) in
      if peek (40 ∷ []) s then block else args

  pub parseblock : ℕ → Text → Parsed
  parseblock zero s = out_of_fuel
  parseblock (suc fuel) s =
      let (tok, t, s1) = gettoken s in
      let body = then_parse (parseline fuel s1) λ cmd s2.
        let (tok2, t2, s3) = gettoken s2 in
        let rest = with_redirs (parseredirs fuel (λ c. c) s3) (λ wrap s4. parsed (wrap cmd) s4) in
        if not (peek (41 ∷ []) s2) then panicked else rest in
      if not (peek (40 ∷ []) s) then panicked else body

-- The command, or a panic where text is left over.
abbrev pub leftovers : Cmd → Text → Parsed
leftovers cmd [] = parsed cmd []
leftovers cmd (c ∷ s) = panicked

unfoldable pub whole : Parsed → Parsed
unfolding skip_spaces
whole (parsed cmd s) = leftovers cmd (skip_spaces s)
whole panicked = panicked
whole out_of_fuel = out_of_fuel

-- Four calls lie between two brackets, and each other round takes a byte.
unfoldable pub parsecmd : Text → Parsed
unfolding parseline whole
parsecmd s = whole (parseline (8 * length s + 8) s)
