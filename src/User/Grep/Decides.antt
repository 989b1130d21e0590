-- ===== src/User/Grep/Decides.antt =====
-- What a pattern means, by rules, and that the matcher decides it.
use learn_mit_s.Common.{
  ℕ, ◌≡◌, refl, sym, ap, ◌∙◌, ◌≢◌, ◌↔◌, ◌⊎◌, inl, inr, Bool, true, [], ◌∷◌, ◌++◌, arith, ◌==◌,
  ==→eq, ==_ne, ==_false, Bool-cases,
}
use learn_mit_s.User.Grep.{Text, match_one, matchstar, matchhere, match_any, match}

-- The pattern character `c` accepts the byte `t`.
abbrev pub Accepts : ℕ → ℕ → Type 0
Accepts c t = (c ≡ b'.') ⊎ (c ≡ t)

-- The pattern does not go on with a star.
abbrev pub NoStar : Text → Type 0
NoStar [] = Unit
NoStar (d ∷ re) = d ≢ b'*'

-- `c` at the head of the pattern stands for a character, not for the end of the text.
abbrev pub Plain : ℕ → Text → Type 0
Plain c [] = c ≢ b'$'
Plain c (d ∷ re) = Unit

-- A match of the pattern begins the text.
pub data Here : Text → Text → Type 0 where
  nil : {text : Text} → Here [] text
  one :
      {c t : ℕ} {re text : Text}
      → NoStar re
      → Plain c re
      → Accepts c t
      → Here re text
      → Here (c ∷ re) (t ∷ text)
  at_end : {c : ℕ} → c ≡ b'$' → Here (c ∷ []) []
  star_done : {c d : ℕ} {re text : Text} → d ≡ b'*' → Here re text → Here (c ∷ d ∷ re) text
  star_more :
      {c d t : ℕ} {re text : Text}
      → d ≡ b'*'
      → Accepts c t
      → Here (c ∷ d ∷ re) text
      → Here (c ∷ d ∷ re) (t ∷ text)

-- A match of the pattern stands somewhere in the text; after `^`, at its beginning.
pub data Matches : Text → Text → Type 0 where
  anchored : {c : ℕ} {re text : Text} → c ≡ b'^' → Here re text → Matches (c ∷ re) text
  floating :
      {re text : Text} (pre suf : Text)
      → text ≡ pre ++ suf
      → ((r : Text) → re ≢ b'^' ∷ r)
      → Here re suf
      → Matches re text

matchstar_sound :
    (c d : ℕ) (re : Text)
    → d ≡ b'*'
    → ((t : Text) → matchhere re t ≡ true → Here re t)
    → (text : Text) → matchstar c (matchhere re) text ≡ true
    → Here (c ∷ d ∷ re) text
unfolding matchstar
matchstar_sound c d re e next [] h = star_done e (next [] h)
matchstar_sound c d re e next (t ∷ text) h = elim (Bool-cases (matchhere re (t ∷ text))) [
  | inl now ↦ star_done e (next (t ∷ text) now)
  | inr not_now ↦ star_more e (ground arith) (matchstar_sound c d re e next text (ground arith))
]

one_sound :
    (c : ℕ) (re : Text)
    → NoStar re
    → Plain c re
    → ((t : Text) → matchhere re t ≡ true → Here re t)
    → (text : Text) → match_one c (matchhere re) text ≡ true
    → Here (c ∷ re) text
unfolding match_one
one_sound c re ns p next [] h = cc
one_sound c re ns p next (t ∷ text) h = one ns p (ground arith) (next text (ground arith))

matchhere_sound : (re text : Text) → matchhere re text ≡ true → Here re text
unfolding matchhere
matchhere_sound [] text h = nil
matchhere_sound (c ∷ []) [] h = at_end (ground arith)
matchhere_sound (c ∷ []) (t ∷ text) h = one tt (ground arith) (ground arith) nil
matchhere_sound (c ∷ d ∷ re) text h = elim (Bool-cases (d == b'*')) [
  | inl e ↦ matchstar_sound c d re (==→eq _ _ e) (matchhere_sound re) text (rw e at h)
  | inr e ↦ one_sound c (d ∷ re) (==_false _ _ e) tt (matchhere_sound (d ∷ re)) text (rw e at h)
]

matchhere-one :
    (c t : ℕ) (re text : Text)
    → NoStar re
    → Plain c re
    → Accepts c t
    → matchhere re text ≡ true
    → matchhere (c ∷ re) (t ∷ text) ≡ true
unfolding matchhere
matchhere-one c t [] text ns p a h = ground arith
matchhere-one c t (d ∷ re) text ns p a h = rw (==_ne d b'*' ns, h) (ground arith)

matchstar-done :
    (c : ℕ) (next : Text → Bool) (text : Text) → next text ≡ true → matchstar c next text ≡ true
unfolding matchstar
matchstar-done c next [] h = h
matchstar-done c next (t ∷ text) h = rw h

matchhere-star :
    (c d : ℕ) (re text : Text)
    → d ≡ b'*'
    → matchhere (c ∷ d ∷ re) text ≡ matchstar c (matchhere re) text
unfolding matchhere
matchhere-star c d re text e = rw e

matchstar-more :
    (c t : ℕ) (next : Text → Bool) (text : Text)
    → Accepts c t
    → matchstar c next text ≡ true
    → matchstar c next (t ∷ text) ≡ true
unfolding matchstar
matchstar-more c t next text a h = ground arith

matchhere_complete : {re text : Text} → Here re text → matchhere re text ≡ true
matchhere_complete nil = unfold matchhere in refl
matchhere_complete (one {c} {t} {re} {text} ns p a h) =
    matchhere-one c t re text ns p a (matchhere_complete h)
matchhere_complete (at_end e) = unfold matchhere in rw e
matchhere_complete (star_done {c} {d} {re} {text} e h) =
    matchhere-star c d re text e ∙ matchstar-done c (matchhere re) text (matchhere_complete h)
matchhere_complete (star_more {c} {d} {t} {re} {text} e a h) =
    matchhere-star c d re (t ∷ text) e
    ∙ matchstar-more c t (matchhere re) text a
        (sym (matchhere-star c d re text e) ∙ matchhere_complete h)

match_any_sound :
    (re text : Text)
    → match_any re text ≡ true
    → (pre : Text) × (suf : Text) × (text ≡ pre ++ suf) × Here re suf
unfolding match_any
match_any_sound re [] h = ([], [], refl, matchhere_sound re [] h)
match_any_sound re (t ∷ text) h = elim (Bool-cases (matchhere re (t ∷ text))) [
  | inl e ↦ ([], t ∷ text, refl, matchhere_sound re (t ∷ text) e)
  | inr e ↦
      let (pre, suf, split, found) = match_any_sound re text (rw e at h) in
      (t ∷ pre, suf, ap (◌∷◌ t) split, found)
]

match_any_complete : (re pre suf : Text) → Here re suf → match_any re (pre ++ suf) ≡ true
unfolding match_any
match_any_complete re [] [] h = matchhere_complete h
match_any_complete re [] (t ∷ suf) h = rw (matchhere_complete h)
match_any_complete re (t ∷ pre) suf h = ground (arith, match_any_complete re pre suf h)

match_sound : (re text : Text) → match re text ≡ true → Matches re text
unfolding match
match_sound [] text h =
    let (pre, suf, split, found) = match_any_sound [] text h in
    floating pre suf split (λ r e. cc) found
match_sound (c ∷ re) text h = elim (Bool-cases (c == b'^')) [
  | inl e ↦ anchored (==→eq _ _ e) (matchhere_sound re text (rw e at h))
  | inr e ↦
      let (pre, suf, split, found) = match_any_sound (c ∷ re) text (rw e at h) in
      floating pre suf split (λ r q. ground arith) found
]

match-floating :
    (re text : Text)
    → ((r : Text) → re ≢ b'^' ∷ r)
    → match_any re text ≡ true
    → match re text ≡ true
unfolding match
match-floating [] text ne h = h
match-floating (c ∷ re) text ne h = elim (Bool-cases (c == b'^')) [
  | inl e ↦ absurd (ne re (ap (λ x. x ∷ re) (==→eq _ _ e)))
  | inr e ↦ rw e h
]

match_complete : {re text : Text} → Matches re text → match re text ≡ true
match_complete (anchored e h) = unfold match in rw (e, matchhere_complete h)
match_complete (floating {re} pre suf split ne h) =
    match-floating re _ ne (rw split (match_any_complete re pre suf h))

-- `match` answers 1 exactly when the text has a match of the pattern, by the rules above: at its
-- beginning for a pattern with `^`, anywhere for another.
pub match-true_iff : (re text : Text) → (match re text ≡ true) ↔ Matches re text
match-true_iff re text = (match_sound re text, match_complete)
