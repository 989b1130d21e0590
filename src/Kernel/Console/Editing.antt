-- ===== src/Kernel/Console/Editing.antt =====
-- The line editor of the console as an editor of lists: the bytes that can be read, and the line that is
-- being typed.
use learn_mit_s.Common.{
  ℕ, suc, ◌+◌, ◌%◌, ◌^◌, ◌≤◌, ◌<◌, ◌≡◌, refl, sym, ap, ap₂, ◌∙◌, ◌≢◌, inl, inr, Bool, not, ◌&&◌,
  ◌||◌, [], ◌∷◌, ◌++◌, arith, ℕ_discrete, ltb, ◌==◌, Bool-cases, length, length-append, update,
  update_ne, update_self,
}
use mathlib.Core.Path.{subst}
use learn_mit_s.Kernel.Console.{input_buf, Cons, sub32, inc32, newline, store, consoleintr}
use learn_mit_s.Kernel.Console.Lines.{
  window, view, typed_on, edit, IsValid, length-window, window-update, window-append, lines, Seen,
  erase-Seen, kill_line-Seen,
}

-- The state after the byte at the edit index is stored and counted.
abbrev longer : ℕ → Cons → Cons
longer c s = record s { bytes = update s.bytes (s.e % input_buf) c; e = inc32 s.e }

longer_count :
    (s : Cons) → IsValid s → sub32 s.e s.r < input_buf → sub32 (inc32 s.e) s.w ≡ suc (sub32 s.e s.w)
longer_count s v lt = omega (arith, v.read_fits, v.write_fits, v.edit_fits, v.ordered)

longer-view :
    (c : ℕ) (s : Cons)
    → IsValid s
    → sub32 s.e s.r < input_buf
    → view (longer c s) ≡ record (view s) { typed = (view s).typed ++ c ∷ [] }
longer-view c s v lt =
    ap₂ lines (window-update s.bytes s.r (sub32 s.w s.r) (s.e % input_buf) c (λ i l. omega arith)) (
      ap (window (update s.bytes (s.e % input_buf) c) s.w) (longer_count s v lt)
      ∙ ap₂ (λ xs x. xs ++ x ∷ [])
          (window-update s.bytes s.w (sub32 s.e s.w) (s.e % input_buf) c (λ i l. omega arith))
          (ap (update s.bytes (s.e % input_buf) c) at ∙ update_self s.bytes (s.e % input_buf) c))
  where
    at : (s.w + sub32 s.e s.w) % input_buf ≡ s.e % input_buf
    at = omega arith

longer-IsValid :
    (c : ℕ) (s : Cons) → IsValid s → sub32 s.e s.r < input_buf → c ≢ 10 → IsValid (longer c s)
longer-IsValid c s v lt ne = record {
  read_fits = v.read_fits;
  write_fits = v.write_fits;
  edit_fits = omega arith;
  ordered = omega (arith, longer_count s v lt);
  unended = λ i l. fresh i (omega (arith, longer_count s v lt));
}
  where
    fresh : (i : ℕ) → i ≤ sub32 s.e s.w → (longer c s).bytes ((s.w + i) % input_buf) ≢ 10
    fresh i le = elim (ℕ_discrete i (sub32 s.e s.w)) [
      | yes at ↦ λ e. ne (
          sym (update_self s.bytes (s.e % input_buf) c)
          ∙ ap (update s.bytes (s.e % input_buf) c) (omega arith)
          ∙ e)
      | no n ↦ λ e.
          v.unended i (omega arith)
            (sym (update_ne s.bytes (s.e % input_buf) c ((s.w + i) % input_buf) (omega arith)) ∙ e)
    ]

-- The typed line handed over to the reader.
abbrev ended : Cons → Cons
ended s = record s { w = s.e }

ended-Seen :
    (s : Cons)
    → s.r < 2 ^ 32
    → s.w < 2 ^ 32
    → s.e < 2 ^ 32
    → sub32 s.w s.r + sub32 s.e s.w ≤ input_buf
    → Seen (ended s) (lines ((view s).ready ++ (view s).typed) [])
ended-Seen s a b c o = (
  record {
    read_fits = a;
    write_fits = c;
    edit_fits = c;
    ordered = omega arith;
    unended = λ i l. absurd (omega arith);
  },
  ap₂ lines
      (window-append s.bytes s.r s.w (sub32 s.w s.r) (sub32 s.e s.r) (sub32 s.e s.w) (omega arith)
        (omega arith))
      (ap (window s.bytes s.e) none_left),
)
  where
    none_left : sub32 s.e s.e ≡ 0
    none_left = omega arith

store-Seen :
    (c : ℕ) (s : Cons)
    → IsValid s
    → sub32 s.e s.r < input_buf
    → Seen (store c s) (typed_on c (view s))
unfolding store
store-Seen c s v lt = rw full (elim (Bool-cases test) [
  | inl y ↦ rw y (
      subst (λ l. Seen (ended (longer c s)) (lines (l.ready ++ l.typed) [])) (longer-view c s v lt)
        (ended-Seen (longer c s) v.read_fits v.write_fits (omega arith)
          (omega (arith, longer_count s v lt))))
  | inr n ↦ rw n (longer-IsValid c s v lt (ground arith), longer-view c s v lt)
])
  where
    test : Bool
    test = c == 10 || c == 4 || inc32 s.e == (s.r + input_buf) % 2 ^ 32

    counts :
        length (view s).ready + length ((view s).typed ++ c ∷ [])
        ≡ sub32 s.w s.r + (sub32 s.e s.w + 1)
    counts = omega (
      arith,
      length-window s.bytes s.r (sub32 s.w s.r),
      length-window s.bytes s.w (sub32 s.e s.w),
      length-append (view s).typed (c ∷ []),
    )

    full :
        (length (view s).ready + length ((view s).typed ++ c ∷ []) == input_buf)
        ≡ (inc32 s.e == (s.r + input_buf) % 2 ^ 32)
    full = rw counts (ground arith)

-- From a state in which the counters are in order, at most the buffer's size apart, and the typed
-- line has no newline, every key leads to such a state, and does to the bytes that can be read
-- and to the line being typed what the editor of lists says: the character is added, the last one
-- or the whole line is taken back, or the line is handed over.
pub consoleintr-Seen : (c : ℕ) (s : Cons) → IsValid s → Seen (consoleintr c s).0 (edit c (view s))
unfolding consoleintr
consoleintr-Seen c s v = rw room (elim (Bool-cases (c == 16)) [
  | inl a ↦ rw a (v, refl)
  | inr a ↦ rw a (elim (Bool-cases (c == 21)) [
    | inl b ↦ rw b (kill_line-Seen input_buf s v (omega arith))
    | inr b ↦ rw b (elim (Bool-cases (c == 8 || c == 127)) [
      | inl d ↦ rw d (erase-Seen s v)
      | inr d ↦ rw d (elim (Bool-cases (not (c == 0) && ltb (sub32 s.e s.r) input_buf)) [
        | inl y ↦ rw y (store-Seen (newline c) s v (ground arith))
        | inr n ↦ rw n (v, refl)
      ])
    ])
  ])
])
  where
    total : length (view s).ready + length (view s).typed ≡ sub32 s.e s.r
    total = omega (
      arith,
      length-window s.bytes s.r (sub32 s.w s.r),
      length-window s.bytes s.w (sub32 s.e s.w),
    )

    room :
        ltb (length (view s).ready + length (view s).typed) input_buf
        ≡ ltb (sub32 s.e s.r) input_buf
    room = ap (λ n. ltb n input_buf) total
