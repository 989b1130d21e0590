-- ===== src/User/Sh/Tests.antt =====
-- Tests and witnesses for the parser.
use learn_mit_s.Common.{◌≡◌, refl, ◌≢◌, [], ◌∷◌, arith}
use learn_mit_s.User.Sh.{
  Text, execcmd, listcmd, backcmd, parsed, panicked, out_of_fuel, parsecmd, mem,
}
use learn_mit_s.User.Sh.Syntax.{
  from, append, args, block, one, bar, Line, last, semi, write_line, line_cmd, IsLine,
}
use learn_mit_s.User.Sh.RoundTrip.{parsecmd-write_line}
use learn_mit_s.User.Sh.Progress.{parsecmd_ends}

-- `ls;rm x&`
abbrev ls_rm : Text
ls_rm = 108 ∷ 115 ∷ 59 ∷ 114 ∷ 109 ∷ 32 ∷ 120 ∷ 38 ∷ []

abbrev ls : Text
ls = 108 ∷ 115 ∷ []

abbrev rm : Text
rm = 114 ∷ 109 ∷ []

abbrev x : Text
x = 120 ∷ []

-- A bracket that does not close.
parsecmd_open : parsecmd (40 ∷ ls) ≡ panicked
unfolding parsecmd
parsecmd_open = refl

-- Behind `&` only `;` goes on: `&` is no separator.
parsecmd_list :
    parsecmd ls_rm ≡ parsed (listcmd (execcmd (ls ∷ [])) (backcmd (execcmd (rm ∷ x ∷ [])))) []
unfolding parsecmd
parsecmd_list = refl

parsecmd_separator : parsecmd (108 ∷ 38 ∷ 115 ∷ []) ≡ panicked
unfolding parsecmd
parsecmd_separator = refl

-- `ls >> x &; (rm x | ls) < x`
abbrev sample : Line
sample = semi (one (args [] (record { name = ls; redirs = append x ∷ [] } ∷ []))) 1 (
    last
      (one (
        block
          (last
            (bar
              (args [] (record { name = rm; redirs = [] } ∷ record { name = x; redirs = [] } ∷ []))
              (one (args [] (record { name = ls; redirs = [] } ∷ []))))
            0)
          (from x ∷ [])))
      0)

sample-IsLine : IsLine sample
unfolding IsLine mem
sample-IsLine = ground arith

parsecmd-write_line_example : parsecmd (write_line sample []) ≡ parsed (line_cmd sample) []
parsecmd-write_line_example = parsecmd-write_line sample sample-IsLine

parsecmd_ends_example : parsecmd ls_rm ≢ out_of_fuel
parsecmd_ends_example = parsecmd_ends ls_rm
