-- ===== src/User/Grep.antt =====
-- lab1/user/grep.c: the matcher for patterns of `^ . * $`. A string is the list of its bytes before
-- the terminator, so `re[0] == '\0'` is the empty list.
pub mod Decides
mod Tests
use learn_mit_s.Common.{
  ℕ, ◌*◌, ◌^◌, Bool, true, false, ◌&&◌, ◌||◌, List, [], ◌∷◌, ◌==◌, if◌then◌else◌,
}

abbrev pub Text : Type 0
Text = List ℕ

abbrev pub is_empty : Text → Bool
is_empty [] = true
is_empty (t ∷ text) = false

-- `*text!='\0' && (re[0]=='.' || re[0]==*text)`, and `next` on the rest of the text.
unfoldable pub match_one : ℕ → (Text → Bool) → Text → Bool
match_one c next [] = false
match_one c next (t ∷ text) = (c == b'.' || c == t) && next text

-- `matchstar` with `next` for its call of `matchhere(re, text)`.
unfoldable pub matchstar : ℕ → (Text → Bool) → Text → Bool
matchstar c next [] = next []
matchstar c next (t ∷ text) = next (t ∷ text) || ((t == c || c == b'.') && matchstar c next text)

unfoldable pub matchhere : Text → Text → Bool
unfolding match_one matchstar
matchhere [] text = true
matchhere (c ∷ []) text = if c == b'$' then is_empty text else match_one c (matchhere []) text
matchhere (c ∷ d ∷ re) text =
    if d == b'*' then matchstar c (matchhere re) text else match_one c (matchhere (d ∷ re)) text

-- The `do` loop of `match`: the empty string at the end of the text is looked at too.
unfoldable pub match_any : Text → Text → Bool
match_any re [] = matchhere re []
match_any re (t ∷ text) = matchhere re (t ∷ text) || match_any re text

unfoldable pub match : Text → Text → Bool
unfolding match_any matchhere
match [] text = match_any [] text
match (c ∷ re) text = if c == b'^' then matchhere re text else match_any (c ∷ re) text
