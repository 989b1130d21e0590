-- ===== src/Kernel/File/Sharing.antt =====
-- Files are shared by their descriptors: an entry is free when none refers to it, and closed with the last.
use learn_mit_s.Common.{
  ℕ, zero, suc, ◌+◌, ◌-◌, ◌%◌, ◌^◌, ◌<◌, ◌≡◌, refl, sym, ap, ◌∙◌, ◌≢◌, false, some, List, ◌∷◌, ◌++◌,
  arith, length, length-append, update, update_ne, update_self, some_inj, ℕ_discrete,
}
use mathlib.Core.Path.{subst}
use learn_mit_s.Kernel.File.{
  fd_none, File, Files, below_one, filealloc, filedup, Closing, nothing, closing, fileclose,
}
use learn_mit_s.Kernel.File.Descriptors.{
  count, Open, Step, Reach, count_le-length, Counted, update-Counted, count-cons_ne,
  count-cons_self, alloc_cases, held_count, others_count, open_file, dup, close, boot, step,
}

-- What `fileclose` does to a file with `n` other descriptors.
abbrev closed : Files → ℕ → ℕ → Closing × Files
closed t f zero = (closing (t f) (t f).kind, update t f (record (t f) { ref = 0; kind = fd_none }))
closed t f (suc n) = (nothing, update t f (record (t f) { ref = suc n }))

fileclose-closed :
    (t : Files) (f n : ℕ) → (t f).ref ≡ suc n → n < 2 ^ 31 - 1 → fileclose f t ≡ some (closed t f n)
unfolding fileclose
fileclose-closed t f zero e lt = rw e refl
fileclose-closed t f (suc n) e lt =
    let live : below_one (t f).ref ≡ false = ground arith in
    let less : ((t f).ref + 2 ^ 32 - 1) % 2 ^ 32 ≡ suc n = omega arith in
    let more : below_one (suc n) ≡ false = ground arith in rw (live, less, more) refl

filedup-held :
    (t : Files) (f n : ℕ)
    → (t f).ref ≡ suc n
    → n < 2 ^ 31 - 1
    → filedup f t ≡ some (update t f (record (t f) { ref = suc (suc n) }))
unfolding filedup
filedup-held t f n e lt =
    let live : below_one (t f).ref ≡ false = ground arith in
    let more : ((t f).ref + 1) % 2 ^ 32 ≡ suc (suc n) = omega arith in rw (live, more) refl

-- With `n` other descriptors the table after `fileclose` has their number.
closed-ref : (t : Files) (f n : ℕ) → ((closed t f n).1 f).ref ≡ n
closed-ref t f zero = ap (λ (x : File). x.ref) (update_self t f _)
closed-ref t f (suc n) = ap (λ (x : File). x.ref) (update_self t f _)

-- What `fileclose` has done to a file with so many other descriptors.
pub data Closes (t : Files) (f : ℕ) : ℕ → Closing → Files → Type 0 where
  shared :
      (n : ℕ) (u : Files)
      → (u f).ref ≡ suc n
      → (u f).kind ≡ (t f).kind
      → Closes t f (suc n) nothing u
  last : (u : Files) → (u f).ref ≡ 0 → Closes t f zero (closing (t f) (t f).kind) u

closed-Closes : (t : Files) (f n : ℕ) → Closes t f n (closed t f n).0 (closed t f n).1
closed-Closes t f zero = last (closed t f zero).1 (closed-ref t f zero)
closed-Closes t f (suc n) =
    shared n (closed t f (suc n)).1 (closed-ref t f (suc n))
      (ap (λ (x : File). x.kind) (update_self t f _))

closed-others : (t : Files) (f n i : ℕ) → f ≢ i → (closed t f n).1 i ≡ t i
closed-others t f zero i ne = update_ne t f _ i ne
closed-others t f (suc n) i ne = update_ne t f _ i ne

few_others :
    (s : Open) (f : ℕ) (pre post : List ℕ)
    → s.held ≡ pre ++ f ∷ post
    → length s.held < 2 ^ 31 - 1
    → count f (pre ++ post) < 2 ^ 31 - 1
few_others s f pre post e lt = omega (
  arith,
  ap length e,
  length-append pre (f ∷ post),
  length-append pre post,
  count_le-length f (pre ++ post),
)

close-Counted :
    (s : Open) (f : ℕ) (pre post : List ℕ)
    → Counted s
    → s.held ≡ pre ++ f ∷ post
    → Counted (record { table = (closed s.table f (count f (pre ++ post))).1; held = pre ++ post })
close-Counted s f pre post v e i = elim (ℕ_discrete f i) [
  | yes y ↦
      let n = count f (pre ++ post) in
      ap (λ j. ((closed s.table f n).1 j).ref) (sym y)
      ∙ closed-ref s.table f n
      ∙ ap (λ j. count j (pre ++ post)) y
  | no ne ↦
      ap (λ (x : File). x.ref) (closed-others s.table f (count f (pre ++ post)) i ne)
      ∙ v i
      ∙ others_count s f pre post i e ne
]

Step-Counted : (s u : Open) → Counted s → length s.held < 2 ^ 31 - 1 → Step s u → Counted u
Step-Counted s u v lt (open_file f t e) =
    let (free, made) = alloc_cases s.table t f e in
    subst (λ x. Counted (record { table = x; held = f ∷ s.held })) (sym made)
      (update-Counted s f (record (s.table f) { ref = 1 }) (f ∷ s.held) v
        (omega (arith, v f, count-cons_self f s.held)) (λ i ne. sym (count-cons_ne f i s.held ne)))
Step-Counted s u v lt (dup f pre post e d) =
    let n = count f (pre ++ post) in
    let many = held_count s f pre post v e in
    let made = some_inj (sym d ∙ filedup-held s.table f n many (few_others s f pre post e lt)) in
    subst (λ x. Counted (record { table = x; held = f ∷ s.held })) (sym made)
      (update-Counted s f (record (s.table f) { ref = suc (suc n) }) (f ∷ s.held) v
        (omega (arith, v f, many, count-cons_self f s.held))
        (λ i ne. sym (count-cons_ne f i s.held ne)))
Step-Counted s u v lt (close f pre post e d) =
    let n = count f (pre ++ post) in
    let ran =
      fileclose-closed s.table f n (held_count s f pre post v e) (few_others s f pre post e lt) in
    let made = ap (λ q. q.1) (some_inj (sym d ∙ ran)) in
    subst (λ x. Counted (record { table = x; held = pre ++ post })) (sym made)
      (close-Counted s f pre post v e)

module _ {t : Files} (free : (i : ℕ) → (t i).ref ≡ 0) where
  Reach-Counted : {s : Open} → Reach t s → Counted s
  Reach-Counted boot = free
  Reach-Counted (step {s} {u} r lt a) = Step-Counted s u (Reach-Counted r) lt a

  -- In every run with fewer than 2^31 - 1 descriptors, from a table without open files, a file that
  -- `filealloc` returns is one that no descriptor refers to.
  pub filealloc_fresh :
      {s : Open}
      → Reach t s
      → (f : ℕ) (t' : Files) → filealloc s.table ≡ (some f, t')
      → count f s.held ≡ 0
  filealloc_fresh {s} r f t' e = sym (Reach-Counted r f) ∙ (alloc_cases s.table t' f e).0

  -- In every run with fewer than 2^31 - 1 descriptors, from a table without open files,
  -- `fileclose` of a file that a descriptor refers to does not panic. While other descriptors
  -- refer to the file the count becomes their number, the file keeps its kind, and nothing else
  -- is done; with the last one the pipe end is closed or the inode put, and the entry is free.
  pub fileclose-Closes :
      {s : Open}
      → Reach t s
      → length s.held < 2 ^ 31 - 1
      → (f : ℕ) (pre post : List ℕ) → s.held ≡ pre ++ f ∷ post
      → (c : Closing) × (u : Files) × (fileclose f s.table ≡ some (c, u))
        × Closes s.table f (count f (pre ++ post)) c u
  fileclose-Closes {s} r lt f pre post e =
      let n = count f (pre ++ post) in
      (
        (closed s.table f n).0,
        (closed s.table f n).1,
        fileclose-closed s.table f n (held_count s f pre post (Reach-Counted r) e)
            (few_others s f pre post e lt),
        closed-Closes s.table f n,
      )
