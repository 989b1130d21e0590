-- ===== src/User/Sh/Shrinks.antt =====
-- `gettoken` takes bytes from the text.
use learn_mit_s.Common.{
  ℕ, ◌≤◌, ◌<◌, ◌≡◌, refl, ap, ◌∙◌, inl, inr, true, false, [], ◌∷◌, length, arith, ◌==◌, Bool-cases,
  if-true, if-false, if_both,
}
use learn_mit_s.User.Sh.{
  Text, mem, whitespace, symbols, skip_spaces, word, greater, token, gettoken, starts, peek,
}
use learn_mit_s.User.Sh.Tokens.{IsTight}

-- Tokens take bytes.
pub skip_spaces-le : (s : Text) → length (skip_spaces s) ≤ length s
unfolding skip_spaces
skip_spaces-le [] = omega arith
skip_spaces-le (c ∷ s) = ground (arith, skip_spaces-le s)

skip_spaces-IsTight : (s : Text) → IsTight (skip_spaces s)
unfolding skip_spaces
skip_spaces-IsTight [] = refl
skip_spaces-IsTight (c ∷ s) = elim (Bool-cases (mem c whitespace)) [
  | inl h ↦ ap (starts whitespace) (if-true (skip_spaces s) (c ∷ s) h) ∙ skip_spaces-IsTight s
  | inr h ↦ ap (starts whitespace) (if-false (skip_spaces s) (c ∷ s) h) ∙ h
]

word-le : (s : Text) → length (word s).1 ≤ length s
unfolding word
word-le [] = omega arith
word-le (c ∷ s) = ground (arith, word-le s)

word-lt :
    (c : ℕ) (s : Text)
    → mem c whitespace ≡ false
    → mem c symbols ≡ false
    → length (word (c ∷ s)).1 ≤ length s
unfolding word
word-lt c s h k = rw h (rw k (word-le s))

greater-le : (s : Text) → length (greater s).2 ≤ length s
unfolding greater
greater-le [] = omega arith
greater-le (c ∷ s) = ground arith

no_symbol :
    (c : ℕ)
    → mem c (124 ∷ 40 ∷ 41 ∷ 59 ∷ 38 ∷ 60 ∷ []) ≡ false
    → (c == 62) ≡ false
    → mem c symbols ≡ false
unfolding mem
no_symbol c h k = ground (arith, h, k)

token-lt : (c : ℕ) (s : Text) → mem c whitespace ≡ false → length (token (c ∷ s)).2 ≤ length s
unfolding token
token-lt c s t =
    let Short : ℕ × Text × Text → Type 0 = λ p. length p.2 ≤ length s in
    if_both Short (mem c (124 ∷ 40 ∷ 41 ∷ 59 ∷ 38 ∷ 60 ∷ [])) _ _ (λ h. omega arith)
      λ h. if_both Short (c == 62) _ _ (λ k. greater-le s) λ k. word-lt c s t (no_symbol c h k)

token_nonempty : (s : Text) → IsTight s → 0 < length s → length (token s).2 < length s
token_nonempty [] t h = absurd (omega (arith, h))
token_nonempty (c ∷ s) t h = omega (arith, token-lt c s t)

token-le : (s : Text) → IsTight s → length (token s).2 ≤ length s
unfolding token
token-le [] t = omega arith
token-le (c ∷ s) t = omega (arith, token-lt c s t)

pub gettoken-le : (s : Text) → length (gettoken s).2 ≤ length s
unfolding gettoken
gettoken-le s = omega (
  arith,
  skip_spaces-le (token (skip_spaces s)).2,
  token-le (skip_spaces s) (skip_spaces-IsTight s),
  skip_spaces-le s,
)

gettoken-lt : (s : Text) → 0 < length (skip_spaces s) → length (gettoken s).2 < length s
unfolding gettoken
gettoken-lt s h = omega (
  arith,
  skip_spaces-le (token (skip_spaces s)).2,
  token_nonempty (skip_spaces s) (skip_spaces-IsTight s) h,
  skip_spaces-le s,
)

starts_nonempty : (toks s : Text) → starts toks s ≡ true → 0 < length s
starts_nonempty toks [] h = ground (arith, h)
starts_nonempty toks (c ∷ s) h = omega arith

-- Where `peek` answers 1, `gettoken` takes a byte, and so it does where it answers 'a'.
pub peek-lt : (toks s : Text) → peek toks s ≡ true → length (gettoken s).2 < length s
unfolding peek
peek-lt toks s h = gettoken-lt s (starts_nonempty toks (skip_spaces s) h)

token_word_nonempty : (s : Text) → ((token s).0 == 97) ≡ true → 0 < length s
unfolding token
token_word_nonempty [] h = ground (arith, h)
token_word_nonempty (c ∷ s) h = omega arith

pub word-token_lt : (s : Text) → ((gettoken s).0 == 97) ≡ true → length (gettoken s).2 < length s
unfolding gettoken
word-token_lt s h = gettoken-lt s (token_word_nonempty (skip_spaces s) h)
