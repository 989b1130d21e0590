-- ===== src/User/Sh/Tokens.antt =====
-- What `gettoken` and `peek` do at the start of a written command.
use learn_mit_s.Common.{
  ℕ, ◌≡◌, refl, ap, ◌∙◌, Bool, true, false, [], ◌∷◌, ◌++◌, All, arith, ◌==◌, if-false,
}
use learn_mit_s.User.Sh.{
  Text, mem, whitespace, symbols, skip_spaces, word, greater, token, gettoken, starts, peek,
}
use learn_mit_s.User.Sh.Syntax.{IsPlain, IsWord, write_word}

-- A text that does not start with white space.
abbrev pub IsTight : Text → Type 0
IsTight s = starts whitespace s ≡ false

pub skip_spaces_tight : (s : Text) → IsTight s → skip_spaces s ≡ s
unfolding skip_spaces
skip_spaces_tight [] h = refl
skip_spaces_tight (c ∷ s) h = rw h refl

pub peek_tight : (toks s : Text) → IsTight s → peek toks s ≡ starts toks s
unfolding peek
peek_tight toks s h = ap (starts toks) (skip_spaces_tight s h)

-- A word ends where a space stands.
word_lem : (w rest : Text) → All IsPlain w → word (w ++ 32 ∷ rest) ≡ (w, 32 ∷ rest)
unfolding word mem
word_lem [] rest all = refl
word_lem (c ∷ w) rest ((a, b), all) = rw (word_lem w rest all) (rw a (rw b refl))

pub word-IsTight : (w rest : Text) → IsWord w → IsTight (write_word w rest)
word-IsTight [] rest h = absurd (omega (arith, h))
word-IsTight (c ∷ w) rest h = h.1.0.0

-- A byte that is no symbol is none of the symbols of `gettoken`.
plain_cases :
    (c : ℕ)
    → mem c symbols ≡ false
    → (mem c (124 ∷ 40 ∷ 41 ∷ 59 ∷ 38 ∷ 60 ∷ []) ≡ false) × ((c == 62) ≡ false)
unfolding mem
plain_cases c h = ground (arith, h)

-- `gettoken` by the token at the start.
gettoken-token :
    (s rest : Text) (ret : ℕ) (t behind : Text)
    → IsTight s
    → token s ≡ (ret, t, behind)
    → skip_spaces behind ≡ rest
    → gettoken s ≡ (ret, t, rest)
unfolding gettoken
gettoken-token s rest ret t behind h e k =
    ap (λ p. (p.0, p.1, skip_spaces p.2)) (ap token (skip_spaces_tight s h) ∙ e)
    ∙ ap (λ r. (ret, t, r)) k

skip_space : (rest : Text) → IsTight rest → skip_spaces (32 ∷ rest) ≡ rest
unfolding skip_spaces mem
skip_space rest t = skip_spaces_tight rest t

token-word :
    (c : ℕ) (w rest : Text)
    → mem c symbols ≡ false
    → word (c ∷ w ++ 32 ∷ rest) ≡ (c ∷ w, 32 ∷ rest)
    → token (c ∷ w ++ 32 ∷ rest) ≡ (97, c ∷ w, 32 ∷ rest)
unfolding token
token-word c w rest h e =
    let (a, b) = plain_cases c h in
    if-false (c, c ∷ [], w ++ 32 ∷ rest) _ a
    ∙ if-false (greater (w ++ 32 ∷ rest)) _ b
    ∙ ap (λ p. (97, p.0, p.1)) e

pub gettoken-word :
    (w rest : Text) → IsWord w → IsTight rest → gettoken (write_word w rest) ≡ (97, w, rest)
gettoken-word [] rest h t = absurd (omega (arith, h))
gettoken-word (c ∷ w) rest h t =
    gettoken-token (write_word (c ∷ w) rest) rest 97 (c ∷ w) (32 ∷ rest)
      (word-IsTight (c ∷ w) rest h) (token-word c w rest h.1.0.1 (word_lem (c ∷ w) rest h.1))
      (skip_space rest t)

token-symbol :
    (c : ℕ) (rest : Text)
    → mem c (124 ∷ 40 ∷ 41 ∷ 59 ∷ 38 ∷ 60 ∷ []) ≡ true
    → token (c ∷ rest) ≡ (c, c ∷ [], rest)
unfolding token
token-symbol c rest k = rw k refl

pub gettoken-symbol :
    (c : ℕ) (rest : Text)
    → mem c whitespace ≡ false
    → mem c (124 ∷ 40 ∷ 41 ∷ 59 ∷ 38 ∷ 60 ∷ []) ≡ true
    → IsTight rest
    → gettoken (c ∷ rest) ≡ (c, c ∷ [], rest)
gettoken-symbol c rest h k t =
    gettoken-token (c ∷ rest) rest c (c ∷ []) rest h (token-symbol c rest k)
      (skip_spaces_tight rest t)

-- `>` before a word, and `>>`.
pub gettoken-greater :
    (w rest : Text)
    → IsWord w
    → gettoken (62 ∷ write_word w rest) ≡ (62, 62 ∷ [], write_word w rest)
unfolding token greater mem
gettoken-greater [] rest h = absurd (omega (arith, h))
gettoken-greater (c ∷ w) rest h =
    let (a, b) = plain_cases c h.1.0.1 in
    let s = write_word (c ∷ w) rest in
    gettoken-token (62 ∷ s) s 62 (62 ∷ []) s refl (rw b refl)
      (skip_spaces_tight s (word-IsTight (c ∷ w) rest h))

pub gettoken_append :
    (rest : Text) → IsTight rest → gettoken (62 ∷ 62 ∷ rest) ≡ (43, 62 ∷ 62 ∷ [], rest)
unfolding token greater mem
gettoken_append rest t =
    gettoken-token (62 ∷ 62 ∷ rest) rest 43 (62 ∷ 62 ∷ []) rest refl refl (skip_spaces_tight rest t)

-- A word starts with none of `toks` where no plain byte is one.
pub word_starts :
    (toks w rest : Text)
    → IsWord w
    → ((c : ℕ) → IsPlain c → mem c toks ≡ false)
    → starts toks (write_word w rest) ≡ false
word_starts toks [] rest h k = absurd (omega (arith, h))
word_starts toks (c ∷ w) rest h k = k c h.1.0

-- A text that is empty or starts with one of `toks`.
abbrev pub stops : Text → Text → Bool
stops toks [] = true
stops toks (c ∷ s) = mem c toks

pub stops-starts :
    (toks others s : Text)
    → stops toks s ≡ true
    → ((c : ℕ) → mem c toks ≡ true → mem c others ≡ false)
    → starts others s ≡ false
stops-starts toks others [] h k = refl
stops-starts toks others (c ∷ s) h k = k c h

pub peek_not : (toks s : Text) → IsTight s → starts toks s ≡ false → peek toks s ≡ false
peek_not toks s t h = peek_tight toks s t ∙ h
