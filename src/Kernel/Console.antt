-- ===== src/Kernel/Console.antt =====
-- lab1/kernel/console.c: the input line editor. A character is its code; `C('P')` is 16, `C('U')` 21, `C('H')` 8
-- and `C('D')` 4. The bytes that `consputc` echoes come out as a list.
pub mod Lines
pub mod Editing
mod Tests
use learn_mit_s.Common.{
  ℕ, zero, suc, ◌+◌, ◌-◌, ◌%◌, ◌^◌, Bool, not, ◌&&◌, ◌||◌, List, [], ◌∷◌, ◌++◌, ltb, ◌==◌,
  if◌then◌else◌, update, ℤ, pos, negsuc,
}

abbrev pub input_buf : ℕ
input_buf = 128

pub record Cons : Type 0 where
  pub bytes : ℕ → ℕ
  pub r : ℕ
  pub w : ℕ
  pub e : ℕ

abbrev pub backspace : ℕ
backspace = 0x100

unfoldable pub consputc : ℕ → List ℕ
consputc c = if c == backspace then 8 ∷ 32 ∷ 8 ∷ [] else c ∷ []

-- `uint` differences and increments
abbrev pub sub32 : ℕ → ℕ → ℕ
sub32 a b = (a + 2 ^ 32 - b) % 2 ^ 32

abbrev pub inc32 : ℕ → ℕ
inc32 a = (a + 1) % 2 ^ 32

-- The loop of ^U, of at most `fuel` rounds.
unfoldable pub kill_line : ℕ → Cons → Cons × List ℕ
unfolding consputc
kill_line zero s = (s, [])
kill_line (suc fuel) s =
    let last = sub32 s.e 1 in
    let (s', echo) = kill_line fuel (record s { e = last }) in
    if not (s.e == s.w) && not (s.bytes (last % input_buf) == 10)
    then (s', consputc backspace ++ echo)
    else (s, [])

unfoldable pub erase : Cons → Cons × List ℕ
unfolding consputc
erase s = if not (s.e == s.w) then (record s { e = sub32 s.e 1 }, consputc backspace) else (s, [])

abbrev pub newline : ℕ → ℕ
newline c = if c == 13 then 10 else c

-- The byte `c`, which `uartgetc` has read, at `s.e++` and, at the end of a line, `s.w = s.e`.
unfoldable pub store : ℕ → Cons → Cons
store c s =
    let s' = record s { bytes = update s.bytes (s.e % input_buf) c; e = inc32 s.e } in
    if c == 10 || c == 4 || s'.e == (s.r + input_buf) % 2 ^ 32 then record s' { w = s'.e } else s'

-- The edit index is at most `INPUT_BUF` characters ahead, so as many rounds kill a line. `procdump`
-- changes nothing here.
unfoldable pub consoleintr : ℕ → Cons → Cons × List ℕ
unfolding kill_line erase store consputc
consoleintr c s =
    if c == 16
    then (s, [])
    else if c == 21
    then kill_line input_buf s
    else if c == 8 || c == 127
    then erase s
    else if not (c == 0) && ltb (sub32 s.e s.r) input_buf
    then (store (newline c) s, consputc (newline c))
    else (s, [])

-- A call has returned a number, or sleeps with `n` bytes to go.
pub data ReadOutcome : Type 0 where
  returns : ℤ → Cons → ReadOutcome
  sleeps : (n : ℕ) → Cons → ReadOutcome

-- The byte delivered, in front of what the rest of the call delivers.
abbrev pub delivered : ℕ → List ℕ × ReadOutcome → List ℕ × ReadOutcome
delivered c (out, o) = (c ∷ out, o)

module _ (writable : ℕ → Bool) (killed : Bool) where
  -- The loop of `consoleread` with `n` of `target` bytes to go: what is delivered, and the outcome.
  unfoldable pub read_loop : (target dst n : ℕ) → Cons → List ℕ × ReadOutcome
  read_loop target dst zero s = ([], returns (pos target) s)
  read_loop target dst (suc n) s =
      let c = s.bytes (s.r % input_buf) in
      let s' = record s { r = inc32 s.r } in
      let rest = read_loop target (dst + 1) n s' in
      let done = pos (target - suc n) in
      if s.r == s.w
      then (if killed then ([], returns (negsuc 0) s) else ([], sleeps (suc n) s))
      else if c == 4
      then ([], returns done (if ltb (suc n) target then s else s'))
      else if not (writable dst)
      then ([], returns done s')
      else if c == 10
      then (c ∷ [], returns (pos (target - n)) s')
      else delivered c rest

  unfoldable pub consoleread : ℕ → ℕ → Cons → List ℕ × ReadOutcome
  unfolding read_loop
  consoleread dst n s = read_loop n dst n s
