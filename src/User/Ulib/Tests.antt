-- ===== src/User/Ulib/Tests.antt =====
-- Runs of ulib.c, and the theorems on it at concrete strings.
use learn_mit_s.Common.{
  ◌-◌, ◌^◌, ◌≡◌, refl, inl, true, false, some, [], ◌∷◌, arith, ◌==◌, if◌then◌else◌,
}
use learn_mit_s.Kernel.Str.{Mem}
use learn_mit_s.User.Ulib.{strchr, gets_from, gets, atoi}
use learn_mit_s.User.Ulib.Decimal.{Spells, atoi-printint}
use learn_mit_s.User.Printf.{push_digits, printint}

-- `42` and a NUL at address 10, zeroes everywhere else.
abbrev text : Mem
text a = if a == 10 then 52 else if a == 11 then 50 else 0

printed : printint 42 10 false ≡ 52 ∷ 50 ∷ []
unfolding printint push_digits
printed = refl

printed_negative : printint (2 ^ 32 - 1) 16 true ≡ 45 ∷ 49 ∷ []
unfolding printint push_digits
printed_negative = refl

found : strchr 9 10 50 text ≡ some 11
unfolding strchr
found = refl

got : gets 20 8 (97 ∷ 10 ∷ 98 ∷ []) text 22 ≡ 0
unfolding gets gets_from
got = refl

text-Spells : Spells text 10 (printint 42 10 false)
unfolding printint push_digits
text-Spells = (refl, (refl, inl (omega arith)))

atoi-printint_example : atoi 40 10 text ≡ some 42
atoi-printint_example = atoi-printint 42 10 40 text (omega arith) (omega arith) text-Spells
