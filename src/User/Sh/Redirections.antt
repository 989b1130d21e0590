-- ===== src/User/Sh/Redirections.antt =====
-- What `parseredirs` does on written redirections.
use learn_mit_s.Common.{
  ℕ, zero, suc, ◌<◌, ◌≡◌, refl, ap, ◌∙◌, not, true, false, List, [], ◌∷◌, length, All, arith, ◌==◌,
  if◌then◌else◌,
}
use learn_mit_s.User.Sh.{
  Text, mem, whitespace, skip_spaces, gettoken, starts, peek, Redirs, redirected, Wrap, redirs,
  parseredirs,
}
use learn_mit_s.User.Sh.Syntax.{
  Redir, from, to, append, Arg, write_word, write_redir, write_redirs, write_args, redirect,
  redirect_all, IsPlain, HasWord, HasWords,
}
use learn_mit_s.User.Sh.Tokens.{
  IsTight, skip_spaces_tight, peek_not, word-IsTight, gettoken-word, gettoken-symbol,
  gettoken-greater, gettoken_append, word_starts,
}

-- How written redirections and arguments start.
pub write_redirs-starts :
    (toks : Text) (rs : List Redir) (rest : Text)
    → mem 60 toks ≡ false
    → mem 62 toks ≡ false
    → starts toks rest ≡ false
    → starts toks (write_redirs rs rest) ≡ false
write_redirs-starts toks [] rest a b h = h
write_redirs-starts toks (from w ∷ rs) rest a b h = a
write_redirs-starts toks (to w ∷ rs) rest a b h = b
write_redirs-starts toks (append w ∷ rs) rest a b h = b

pub write_args-starts :
    (toks : Text) (xs : List Arg) (rest : Text)
    → All HasWords xs
    → ((c : ℕ) → IsPlain c → mem c toks ≡ false)
    → starts toks rest ≡ false
    → starts toks (write_args xs rest) ≡ false
write_args-starts toks [] rest all k h = h
write_args-starts toks (a ∷ xs) rest ((w, rs), all) k h =
    word_starts toks a.name (write_redirs a.redirs (write_args xs rest)) w k

pub write_redirs-IsTight :
    (rs : List Redir) (rest : Text) → IsTight rest → IsTight (write_redirs rs rest)
unfolding mem
write_redirs-IsTight rs rest t = write_redirs-starts whitespace rs rest refl refl t

pub write_args-IsTight :
    (xs : List Arg) (rest : Text) → All HasWords xs → IsTight rest → IsTight (write_args xs rest)
write_args-IsTight xs rest all t = write_args-starts whitespace xs rest all (λ c h. h.0) t

-- A round of `parseredirs` by its two tokens.
redirs_round :
    (fuel : ℕ) (wrap : Wrap) (s s1 s2 t w : Text) (tok : ℕ)
    → peek (60 ∷ 62 ∷ []) s ≡ true
    → gettoken s ≡ (tok, t, s1)
    → gettoken s1 ≡ (97, w, s2)
    → parseredirs (suc fuel) wrap s ≡ parseredirs fuel (λ cmd. redirected tok (wrap cmd) w) s2
unfolding parseredirs
redirs_round fuel wrap s s1 s2 t w tok h e k =
    let file : ℕ → ℕ × Text × Text → Redirs = λ r p.
      if not (p.0 == 97)
      then Redirs.panicked
      else parseredirs fuel (λ cmd. redirected r (wrap cmd) p.1) p.2 in
    rw h (ap (λ p. file p.0 (gettoken p.2)) e ∙ ap (file tok) k)

redir_round :
    (r : Redir) (fuel : ℕ) (wrap : Wrap) (rest : Text)
    → HasWord r
    → IsTight rest
    → parseredirs (suc fuel) wrap (write_redir r rest)
      ≡ parseredirs fuel (λ cmd. redirect r (wrap cmd)) rest
unfolding peek skip_spaces mem redirected
redir_round (from w) fuel wrap rest h t =
    redirs_round fuel wrap _ (write_word w rest) rest (60 ∷ []) w 60 refl
      (gettoken-symbol 60 (write_word w rest) refl refl (word-IsTight w rest h))
      (gettoken-word w rest h t)
redir_round (to w) fuel wrap rest h t =
    redirs_round fuel wrap _ (write_word w rest) rest (62 ∷ []) w 62 refl
      (gettoken-greater w rest h) (gettoken-word w rest h t)
redir_round (append w) fuel wrap rest h t =
    redirs_round fuel wrap _ (write_word w rest) rest (62 ∷ 62 ∷ []) w 43 refl
      (gettoken_append (write_word w rest) (word-IsTight w rest h)) (gettoken-word w rest h t)

redirs_end :
    (fuel : ℕ) (wrap : Wrap) (s : Text)
    → IsTight s
    → peek (60 ∷ 62 ∷ []) s ≡ false
    → parseredirs (suc fuel) wrap s ≡ redirs wrap s
unfolding parseredirs
redirs_end fuel wrap s t h = rw h (ap (redirs wrap) (skip_spaces_tight s t))

pub parseredirs-write_redirs :
    (rs : List Redir) (fuel : ℕ) (wrap : Wrap) (rest : Text)
    → length rs < fuel
    → All HasWord rs
    → IsTight rest
    → starts (60 ∷ 62 ∷ []) rest ≡ false
    → parseredirs fuel wrap (write_redirs rs rest) ≡ redirs (λ cmd. redirect_all rs (wrap cmd)) rest
parseredirs-write_redirs rs zero wrap rest b all t n = absurd (omega (arith, b))
parseredirs-write_redirs [] (suc fuel) wrap rest b all t n =
    redirs_end fuel wrap rest t (peek_not _ rest t n)
parseredirs-write_redirs (r ∷ rs) (suc fuel) wrap rest b (h, all) t n =
    redir_round r fuel wrap (write_redirs rs rest) h (write_redirs-IsTight rs rest t)
    ∙ parseredirs-write_redirs rs fuel (λ cmd. redirect r (wrap cmd)) rest (omega arith) all t n
