-- ===== src/Kernel/Sysfile/Copies.antt =====
-- A descriptor that `sys_dup` makes, and its close.
use learn_mit_s.Common.{
  ℕ, suc, ◌+◌, ◌-◌, ◌%◌, ◌^◌, ◌<◌, ◌≡◌, refl, sym, ap, ap₂, ◌∙◌, fun_ext, inl, inr, ◌⊎◌, true,
  false, Option, none, some, arith, update, update_ne, update_self, ℕ_discrete, Option-cases,
}
use learn_mit_s.Common.{ℤ, pos}
use learn_mit_s.Kernel.File
use learn_mit_s.Kernel.File.{File, Files, below_one, Closing, nothing}
use learn_mit_s.Kernel.Sys.{
  nofile, Sys, done, Act, bind_outcome, ◌>>◌, pure, duplicated, filedup, finish_close, closed,
  fileclose,
}
use learn_mit_s.Kernel.Fileio.{minus_one}
use learn_mit_s.Kernel.Sysfile.{is_open, find_slot, slot_taken, fdalloc, dup_file, close_fd}
use learn_mit_s.Kernel.Sysfile.Slots.{Lowest, find_slot-Lowest, find_slot_full}

pub update_twice {ℓ} :
    {A : Type ℓ} (f : ℕ → A) (i : ℕ) (v w : A) → w ≡ f i → update (update f i v) i w ≡ f
update_twice f i v w h = fun_ext λ j. elim (ℕ_discrete i j) [
  | yes y ↦ ap (update (update f i v) i w) (sym y) ∙ update_self (update f i v) i w ∙ h ∙ ap f y
  | no n ↦ update_ne (update f i v) i w j n ∙ update_ne f i v j n
]

-- One reference more.
abbrev more : File → ℕ → File
more x n = record x { ref = suc (suc n) }

filedup-more :
    (t : Files) (f n : ℕ)
    → (t f).ref ≡ suc n
    → n < 2 ^ 31 - 2
    → File.filedup f t ≡ some (update t f (more (t f) n))
unfolding File.filedup
filedup-more t f n e lt =
    let live : below_one (t f).ref ≡ false = ground arith in
    let next : ((t f).ref + 1) % 2 ^ 32 ≡ suc (suc n) = omega arith in rw (live, next) refl

fileclose-more :
    (t : Files) (f n : ℕ)
    → (t f).ref ≡ suc (suc n)
    → n < 2 ^ 31 - 2
    → File.fileclose f t ≡ some (nothing, update t f (record (t f) { ref = suc n }))
unfolding File.fileclose
fileclose-more t f n e lt =
    let live : below_one (t f).ref ≡ false = ground arith in
    let less : ((t f).ref + 2 ^ 32 - 1) % 2 ^ 32 ≡ suc n = omega arith in
    let left : below_one (suc n) ≡ false = ground arith in rw (live, less, left) refl

-- The state with the new descriptor.
abbrev with_copy : Sys → ℕ → ℕ → ℕ → Sys
with_copy s f n fd = record s {
  ofile = update s.ofile fd (some f);
  files = update s.files f (more (s.files f) n);
}

module _ (s : Sys) (f n : ℕ) (counted : (s.files f).ref ≡ suc n) (few : n < 2 ^ 31 - 2) where
  dup_file-done :
      (fd : ℕ)
      → find_slot nofile 0 s.ofile ≡ some fd
      → dup_file f s ≡ done (pos fd) (with_copy s f n fd)
  unfolding dup_file fdalloc filedup
  dup_file-done fd e =
      let answer : Option ℕ → Act ℤ =
        λ r. elim r [ none ↦ pure minus_one | some d ↦ filedup f >> pure (pos d) ] in
      ap (λ r. bind_outcome (slot_taken f r s) answer) e
      ∙ ap
          (λ r.
            bind_outcome (duplicated r (record s { ofile = update s.ofile fd (some f) }))
              (λ _. pure (pos fd)))
          (filedup-more s.files f n counted few)

  close_copy : (fd : ℕ) → s.ofile fd ≡ none → close_fd fd f (with_copy s f n fd) ≡ done (pos 0) s
  unfolding close_fd fileclose finish_close
  close_copy fd free =
      let u = with_copy s f n fd in
      let t = u.files in
      let at : t f ≡ more (s.files f) n = update_self s.files f (more (s.files f) n) in
      let same : record (t f) { ref = suc n } ≡ s.files f =
        ap (λ (x : File). record x { ref = suc n }) at
        ∙ ap (λ k. record (s.files f) { ref = k }) (sym counted) in
      let slots : update (update s.ofile fd (some f)) fd none ≡ s.ofile =
        update_twice s.ofile fd (some f) none (sym free) in
      let files : update t f (record (t f) { ref = suc n }) ≡ s.files =
        update_twice s.files f (more (s.files f) n) (record (t f) { ref = suc n }) same in
      ap
        (λ r.
          bind_outcome (closed r (record u { ofile = update u.ofile fd none })) (λ _. pure (pos 0)))
        (fileclose-more t f n (ap (λ (x : File). x.ref) at) few)
      ∙ ap₂ (λ o g. done (pos 0) (record s { ofile = o; files = g })) slots files

  -- `sys_dup` of a file in use, with fewer than 2^31 - 1 references: where all 16 descriptors are open it answers
  -- -1 and changes nothing. Otherwise it answers the lowest descriptor that is not open, which is for the file then,
  -- and closing that one gives the state from before.
  pub close_fd-dup_file :
      (((fd : ℕ) → fd < nofile → is_open (s.ofile fd) ≡ true) × (dup_file f s ≡ done minus_one s))
      ⊎ ((fd : ℕ) × (u : Sys) × Lowest s.ofile nofile 0 fd
          × (dup_file f s ≡ done (pos fd) u)
          × (u.ofile fd ≡ some f)
          × (close_fd fd f u ≡ done (pos 0) s))
  unfolding dup_file fdalloc
  close_fd-dup_file = elim (Option-cases (find_slot nofile 0 s.ofile)) [
    | inl e ↦
        let answer : Option ℕ → Act ℤ =
          λ r. elim r [ none ↦ pure minus_one | some d ↦ filedup f >> pure (pos d) ] in
        inl (
          λ fd b. find_slot_full s.ofile nofile 0 e fd (omega arith) b,
          ap (λ r. bind_outcome (slot_taken f r s) answer) e,
        )
    | inr (fd, e) ↦
        let low = (find_slot-Lowest s.ofile nofile 0 fd e).1 in
        inr (
          fd,
          with_copy s f n fd,
          low,
          dup_file-done fd e,
          update_self s.ofile fd (some f),
          close_copy fd low.closed,
        )
  ]
