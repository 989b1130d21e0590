-- ===== src/User/Grep/Tests.antt =====
-- The matcher at a pattern with a star.
use learn_mit_s.Common.{◌≡◌, refl, ◌↔◌, true, [], ◌∷◌}
use learn_mit_s.User.Grep.{Text, match}
use learn_mit_s.User.Grep.Decides.{Matches, match-true_iff}

-- `a.*c` in `xabbc`
abbrev star_pattern : Text
star_pattern = b'a' ∷ b'.' ∷ b'*' ∷ b'c' ∷ []

abbrev line : Text
line = b'x' ∷ b'a' ∷ b'b' ∷ b'b' ∷ b'c' ∷ []

matched : match star_pattern line ≡ true
unfolding match
matched = refl

match-true_iff_example : (match star_pattern line ≡ true) ↔ Matches star_pattern line
match-true_iff_example = match-true_iff star_pattern line
