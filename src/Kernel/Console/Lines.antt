-- ===== src/Kernel/Console/Lines.antt =====
-- The input of the console seen as lists, the bytes that can be read and the line that is being typed, and
-- what taking characters back does to them.
use learn_mit_s.Common.{
  ℕ, zero, suc, ◌+◌, ◌%◌, ◌^◌, ◌≤◌, ◌<◌, ◌≡◌, refl, sym, ap, ap₂, ◌∙◌, ◌≢◌, inl, inr, false, not,
  ◌&&◌, ◌||◌, List, [], ◌∷◌, ◌++◌, arith, ltb, ◌==◌, if◌then◌else◌, Bool-cases, ==_ne, length,
  length-append, update, update_ne,
}
use mathlib.Core.List.{append-nil, append_assoc}
use learn_mit_s.Kernel.Console.{input_buf, Cons, sub32, kill_line, erase, newline}

-- `n` bytes of the ring from the counter `s` on.
abbrev pub window : (ℕ → ℕ) → ℕ → ℕ → List ℕ
window bytes s zero = []
window bytes s (suc n) = window bytes s n ++ bytes ((s + n) % input_buf) ∷ []

pub record Lines : Type 0 where
  pub ready : List ℕ
  pub typed : List ℕ

abbrev pub view : Cons → Lines
view s = record {
  ready = window s.bytes s.r (sub32 s.w s.r);
  typed = window s.bytes s.w (sub32 s.e s.w);
}

abbrev pub drop_last : List ℕ → List ℕ
drop_last [] = []
drop_last (x ∷ []) = []
drop_last (x ∷ y ∷ xs) = x ∷ drop_last (y ∷ xs)

-- The line with the character `c` behind it; it can be read once it ends or the buffer is full.
abbrev pub typed_on : ℕ → Lines → Lines
typed_on c l =
    let line = l.typed ++ c ∷ [] in
    if c == 10 || c == 4 || length l.ready + length line == input_buf
    then record { ready = l.ready ++ line; typed = [] }
    else record l { typed = line }

-- What a key does.
abbrev pub edit : ℕ → Lines → Lines
edit c l =
    if c == 16
    then l
    else if c == 21
    then record l { typed = [] }
    else if c == 8 || c == 127
    then record l { typed = drop_last l.typed }
    else if not (c == 0) && ltb (length l.ready + length l.typed) input_buf
    then typed_on (newline c) l
    else l

-- The counters are in order, at most a buffer apart, and the line being typed has no end.
pub record IsValid (s : Cons) : Type 0 where
  pub read_fits : s.r < 2 ^ 32
  pub write_fits : s.w < 2 ^ 32
  pub edit_fits : s.e < 2 ^ 32
  pub ordered : sub32 s.w s.r + sub32 s.e s.w ≤ input_buf
  pub unended : (i : ℕ) → i < sub32 s.e s.w → s.bytes ((s.w + i) % input_buf) ≢ 10

pub length-window : (bytes : ℕ → ℕ) (s n : ℕ) → length (window bytes s n) ≡ n
length-window bytes s zero = refl
length-window bytes s (suc n) = omega (
  arith,
  length-append (window bytes s n) (bytes ((s + n) % input_buf) ∷ []),
  length-window bytes s n,
)

drop_last-snoc : (xs : List ℕ) (x : ℕ) → drop_last (xs ++ x ∷ []) ≡ xs
drop_last-snoc [] x = refl
drop_last-snoc (y ∷ []) x = refl
drop_last-snoc (y ∷ z ∷ xs) x = ap (λ l. y ∷ l) (drop_last-snoc (z ∷ xs) x)

pub window-update :
    (bytes : ℕ → ℕ) (s n at c : ℕ)
    → ((i : ℕ) → i < n → at ≢ (s + i) % input_buf)
    → window (update bytes at c) s n ≡ window bytes s n
window-update bytes s zero at c h = refl
window-update bytes s (suc n) at c h =
    ap₂ (λ xs x. xs ++ x ∷ []) (window-update bytes s n at c (λ i lt. h i (omega arith)))
      (update_ne bytes at c ((s + n) % input_buf) (h n (omega arith)))

-- Two windows of which the second starts where the first ends.
pub window-append :
    (bytes : ℕ → ℕ) (s t n m k : ℕ)
    → m ≡ n + k
    → t % input_buf ≡ (s + n) % input_buf
    → window bytes s m ≡ window bytes s n ++ window bytes t k
window-append bytes s t n m zero l e =
    let same : m ≡ n = omega arith in ap (window bytes s) same ∙ sym (append-nil (window bytes s n))
window-append bytes s t n zero (suc k) l e = absurd (omega arith)
window-append bytes s t n (suc m) (suc k) l e =
    ap₂ (λ xs x. xs ++ x ∷ []) (window-append bytes s t n m k (omega arith) e)
      (ap bytes (omega arith))
    ∙ append_assoc (window bytes s n) (window bytes t k) (bytes ((t + k) % input_buf) ∷ [])

abbrev pub lines : List ℕ → List ℕ → Lines
lines xs ys = record { ready = xs; typed = ys }

-- Nothing is being typed.
typed_none : (s : Cons) → IsValid s → s.e ≡ s.w → (view s).typed ≡ []
typed_none s v e = let z : sub32 s.e s.w ≡ 0 = omega arith in ap (window s.bytes s.w) z

-- The state with the last character taken back.
abbrev shorter : Cons → Cons
shorter s = record s { e = sub32 s.e 1 }

shorter_count : (s : Cons) → IsValid s → s.e ≢ s.w → sub32 s.e s.w ≡ suc (sub32 (sub32 s.e 1) s.w)
shorter_count s v ne = omega arith

shorter-IsValid : (s : Cons) → IsValid s → s.e ≢ s.w → IsValid (shorter s)
shorter-IsValid s v ne = record {
  read_fits = v.read_fits;
  write_fits = v.write_fits;
  edit_fits = omega arith;
  ordered = omega (arith, shorter_count s v ne);
  unended = λ i lt. v.unended i (omega (arith, shorter_count s v ne));
}

shorter-typed :
    (s : Cons)
    → IsValid s
    → s.e ≢ s.w
    → (view s).typed
      ≡ (view (shorter s)).typed ++ s.bytes ((s.w + sub32 (sub32 s.e 1) s.w) % input_buf) ∷ []
shorter-typed s v ne = ap (window s.bytes s.w) (shorter_count s v ne)

-- The result of a step: the state is in order, and is seen as these lines.
abbrev pub Seen : Cons → Lines → Type 0
Seen s l = IsValid s × (view s ≡ l)

pub erase-Seen :
    (s : Cons) → IsValid s → Seen (erase s).0 (record (view s) { typed = drop_last (view s).typed })
unfolding erase
erase-Seen s v = elim (Bool-cases (s.e == s.w)) [
  | inl y ↦
      let z = typed_none s v (ground arith) in rw y (v, ap₂ lines refl (z ∙ ap drop_last (sym z)))
  | inr n ↦
      let ne : s.e ≢ s.w = ground arith in
      rw n (
        shorter-IsValid s v ne,
        ap₂ lines refl (sym (ap drop_last (shorter-typed s v ne) ∙ drop_last-snoc _ _)),
      )
]

pub kill_line-Seen :
    (fuel : ℕ) (s : Cons)
    → IsValid s
    → sub32 s.e s.w ≤ fuel
    → Seen (kill_line fuel s).0 (record (view s) { typed = [] })
unfolding kill_line
kill_line-Seen zero s v le = (v, ap₂ lines refl (typed_none s v (omega arith)))
kill_line-Seen (suc fuel) s v le = elim (Bool-cases (s.e == s.w)) [
  | inl y ↦ rw y (v, ap₂ lines refl (typed_none s v (ground arith)))
  | inr n ↦
      let ne : s.e ≢ s.w = ground arith in
      let at : sub32 s.e 1 % input_buf ≡ (s.w + sub32 (sub32 s.e 1) s.w) % input_buf =
        omega arith in
      let not_end : (s.bytes (sub32 s.e 1 % input_buf) == 10) ≡ false = ==_ne _ _ (λ e.
        v.unended (sub32 (sub32 s.e 1) s.w) (omega (arith, shorter_count s v ne))
          (ap s.bytes (sym at) ∙ e)) in
      rw (n, not_end)
        (kill_line-Seen fuel (shorter s) (shorter-IsValid s v ne)
          (omega (arith, shorter_count s v ne)))
]
