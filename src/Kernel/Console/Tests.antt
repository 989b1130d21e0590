-- ===== src/Kernel/Console/Tests.antt =====
-- Keys typed at a console, and the theorem on them at a concrete state.
use learn_mit_s.Common.{◌-◌, ◌^◌, ◌≡◌, refl, true, false, [], ◌∷◌, arith, ◌==◌, if◌then◌else◌}
use learn_mit_s.Kernel.Console.{
  Cons, consputc, kill_line, store, consoleintr, read_loop, consoleread,
}
use learn_mit_s.Kernel.Console.Lines.{IsValid, view, edit, Seen}
use learn_mit_s.Kernel.Console.Editing.{consoleintr-Seen}

-- `ab` typed behind a line that has been read, with the edit index about to wrap.
abbrev typing : Cons
typing = record { bytes = λ a. if a == 127 then 97 else 98; r = 2 ^ 32 - 1; w = 2 ^ 32 - 1; e = 1 }

typing-IsValid : IsValid typing
typing-IsValid = record {
  read_fits = omega arith;
  write_fits = omega arith;
  edit_fits = omega arith;
  ordered = omega arith;
  unended = λ i lt. ground arith;
}

typing_lines : view typing ≡ record { ready = []; typed = 97 ∷ 98 ∷ [] }
typing_lines = refl

consoleintr-Seen_example : Seen (consoleintr 8 typing).0 (edit 8 (view typing))
consoleintr-Seen_example = consoleintr-Seen 8 typing typing-IsValid

killed_line : (consoleintr 21 typing).1 ≡ 8 ∷ 32 ∷ 8 ∷ 8 ∷ 32 ∷ 8 ∷ []
unfolding consoleintr kill_line consputc
killed_line = refl

abbrev entered : Cons
unfolding consoleintr store
entered = (consoleintr 13 typing).0

line_read : (consoleread (λ _. true) false 0 9 entered).0 ≡ 97 ∷ 98 ∷ 10 ∷ []
unfolding consoleread read_loop entered
line_read = refl
