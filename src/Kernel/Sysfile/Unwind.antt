-- ===== src/Kernel/Sysfile/Unwind.antt =====
-- What `sys_pipe` leaves in the table of descriptors when it fails.
use learn_mit_s.Common.{
  ℕ, ◌+◌, ◌%◌, ◌^◌, ◌≡◌, refl, sym, ap, ◌∙◌, inl, inr, Bool, true, false, Option, none, some,
  if◌then◌else◌, if_both, update, arith, Bool-cases, ◌==◌, ==→eq, fun_ext, update_self, update_ne,
  ℕ_discrete,
}
use learn_mit_s.Common.{ℤ, pos}
use mathlib.Core.Path.{subst}
use learn_mit_s.Kernel.Sys.{nofile, Sys, done, Act, ◌>>=◌, ◌>>◌, pure, copyout_buffer, fileclose}
use learn_mit_s.Kernel.Fileio.{minus_one}
use learn_mit_s.Kernel.Sysfile.{
  set_ofile, find_slot, slot_taken, fdalloc, close_both, int_buffer, pipe_copied, pipe_fds,
  pipe_second, pipe_first, pipe_files,
}
use learn_mit_s.Kernel.Sysfile.Slots.{Lowest, find_slot-Lowest}
use learn_mit_s.Kernel.Sysfile.Copies.{update_twice}
use learn_mit_s.Kernel.Sysfile.Leaves.{
  Leaves, then-Leaves, Same, Slots, fileclose-Same, copyout_buffer-Same,
}

-- The answer of `sys_pipe` and the descriptors after: -1 and those from before, or 0 and the two lowest that were
-- not open, the first for the read end and the second for the write end.
pub data PipeOpened (t : Slots) (rf wf : ℕ) : ℤ → Slots → Type 0 where
  failed : (u : Slots) → u ≡ t → PipeOpened t rf wf minus_one u
  opened :
      (fd0 fd1 : ℕ) (u : Slots)
      → Lowest t nofile 0 fd0
      → Lowest (update t fd0 (some rf)) nofile 0 fd1
      → u ≡ update (update t fd0 (some rf)) fd1 (some wf)
      → PipeOpened t rf wf (pos 0) u

both_cleared :
    (t : Slots) (fd0 fd1 : ℕ) (x y : Option ℕ)
    → t fd0 ≡ none
    → t fd1 ≡ none
    → update (update (update (update t fd0 x) fd1 y) fd0 none) fd1 none ≡ t
both_cleared t fd0 fd1 x y a b = fun_ext λ j. elim (Bool-cases (fd1 == j)) [
  | inl e ↦ rw e (sym (ap t (sym (==→eq fd1 j e)) ∙ b))
  | inr e ↦ elim (Bool-cases (fd0 == j)) [
    | inl f ↦ rw e (rw f (sym (ap t (sym (==→eq fd0 j f)) ∙ a)))
    | inr f ↦ rw e (rw f refl)
  ]
]

module _ (t : Slots) (rf wf : ℕ) where
  close_both-failed : (s : Sys) → s.ofile ≡ t → Leaves (PipeOpened t rf wf) (close_both rf wf s)
  unfolding close_both
  close_both-failed s h =
      then-Leaves (Same t) (PipeOpened t rf wf) (fileclose rf s)
        (λ _. fileclose wf >> pure minus_one) (fileclose-Same t rf s h)
        λ _ u k.
          then-Leaves (Same t) (PipeOpened t rf wf) (fileclose wf u) (λ _. pure minus_one)
            (fileclose-Same t wf u k) λ _ v l. failed v.ofile l

  module _ (fd0 fd1 : ℕ) (a : Lowest t nofile 0 fd0)
      (b : Lowest (update t fd0 (some rf)) nofile 0 fd1) where
    abbrev both : Slots
    both = update (update t fd0 (some rf)) fd1 (some wf)

    pipe_copied-Opened :
        (ok : Bool) (s : Sys)
        → s.ofile ≡ both
        → Leaves (PipeOpened t rf wf) (pipe_copied fd0 fd1 rf wf ok s)
    unfolding pipe_copied
    pipe_copied-Opened true s h = opened fd0 fd1 s.ofile a b h
    pipe_copied-Opened false s h =
        close_both-failed (record s { ofile = update (update s.ofile fd0 none) fd1 none })
          (ap (λ o. update (update o fd0 none) fd1 none) h
            ∙ both_cleared t fd0 fd1 (some rf) (some wf) a.closed second_free)
      where
        second_free : t fd1 ≡ none
        second_free = elim (ℕ_discrete fd0 fd1) [
          | yes y ↦ absurd (
              ground (
                arith,
                sym (update_self t fd0 (some rf)) ∙ ap (update t fd0 (some rf)) y ∙ b.closed,
              ))
          | no n ↦ sym (update_ne t fd0 (some rf) fd1 n) ∙ b.closed
        ]

    pipe_fds-Opened :
        (fdarray : ℕ) (s : Sys)
        → s.ofile ≡ both
        → Leaves (PipeOpened t rf wf) (pipe_fds fdarray fd0 fd1 rf wf s)
    unfolding pipe_fds
    pipe_fds-Opened fdarray s h =
        let second : Act ℤ = (do
          ok ← copyout_buffer ((fdarray + 4) % 2 ^ 64) 4 (int_buffer fd1)
          pipe_copied fd0 fd1 rf wf ok) in
        then-Leaves (Same both) (PipeOpened t rf wf) (copyout_buffer fdarray 4 (int_buffer fd0) s)
          (λ ok. if ok then second else pipe_copied fd0 fd1 rf wf false)
          (copyout_buffer-Same both fdarray 4 (int_buffer fd0) s h)
          λ ok u k.
            if_both (λ (m : Act ℤ). Leaves (PipeOpened t rf wf) (m u)) ok second
              (pipe_copied fd0 fd1 rf wf false)
              (λ e.
                then-Leaves (Same both) (PipeOpened t rf wf)
                  (copyout_buffer ((fdarray + 4) % 2 ^ 64) 4 (int_buffer fd1) u)
                  (λ ok1. pipe_copied fd0 fd1 rf wf ok1)
                  (copyout_buffer-Same both ((fdarray + 4) % 2 ^ 64) 4 (int_buffer fd1) u k)
                  λ ok1 v l. pipe_copied-Opened ok1 v l)
              λ e. pipe_copied-Opened false u k

  cleared_first :
      (fd0 : ℕ) (s : Sys)
      → t fd0 ≡ none
      → s.ofile ≡ update t fd0 (some rf)
      → Leaves (PipeOpened t rf wf) ((set_ofile fd0 none >> close_both rf wf) s)
  cleared_first fd0 s free h =
      close_both-failed (record s { ofile = update s.ofile fd0 none })
        (ap (λ o. update o fd0 none) h ∙ update_twice t fd0 (some rf) none (sym free))

-- What `fdalloc` leaves.
abbrev Taken : Slots → ℕ → Option ℕ → Slots → Type 0
Taken t f none u = u ≡ t
Taken t f (some fd) u = Lowest t nofile 0 fd × (u ≡ update t fd (some f))

slot_taken-Taken :
    (t : Slots) (f : ℕ) (x : Option ℕ) (s : Sys)
    → find_slot nofile 0 t ≡ x
    → s.ofile ≡ t
    → Leaves (Taken t f) (slot_taken f x s)
slot_taken-Taken t f none s q h = h
slot_taken-Taken t f (some fd) s q h =
    ((find_slot-Lowest t nofile 0 fd q).1, ap (λ o. update o fd (some f)) h)

fdalloc-Taken : (t : Slots) (f : ℕ) (s : Sys) → s.ofile ≡ t → Leaves (Taken t f) (fdalloc f s)
unfolding fdalloc
fdalloc-Taken t f s h =
    slot_taken-Taken t f (find_slot nofile 0 s.ofile) s (ap (find_slot nofile 0) (sym h)) h

module _ (t : Slots) (fdarray rf wf : ℕ) where
  pipe_second-Opened :
      (fd0 : ℕ)
      → Lowest t nofile 0 fd0
      → (b : Option ℕ) (s : Sys) → Taken (update t fd0 (some rf)) wf b s.ofile
      → Leaves (PipeOpened t rf wf) (pipe_second fdarray rf wf fd0 b s)
  unfolding pipe_second
  pipe_second-Opened fd0 a none s h = cleared_first t rf wf fd0 s a.closed h
  pipe_second-Opened fd0 a (some fd1) s (b, h) = pipe_fds-Opened t rf wf fd0 fd1 a b fdarray s h

  pipe_first-Opened :
      (a : Option ℕ) (s : Sys)
      → Taken t rf a s.ofile
      → Leaves (PipeOpened t rf wf) (pipe_first fdarray rf wf a s)
  unfolding pipe_first
  pipe_first-Opened none s h = close_both-failed t rf wf s h
  pipe_first-Opened (some fd0) s (a, h) =
      then-Leaves (Taken (update t fd0 (some rf)) wf) (PipeOpened t rf wf) (fdalloc wf s)
        (pipe_second fdarray rf wf fd0) (fdalloc-Taken (update t fd0 (some rf)) wf s h)
        (pipe_second-Opened fd0 a)

-- With both files, `sys_pipe` either fails and leaves the descriptors as they were, whether a descriptor was missing
-- or a copy to the user failed, or answers 0 with the two lowest descriptors that were not open, the first for the
-- read end and the second for the write end.
pub pipe_files-PipeOpened :
    (fdarray rf wf : ℕ) (s u : Sys) (r : ℤ)
    → pipe_files fdarray rf wf s ≡ done r u
    → PipeOpened s.ofile rf wf r u.ofile
unfolding pipe_files
pipe_files-PipeOpened fdarray rf wf s u r e =
    let t = s.ofile in
    subst (Leaves (PipeOpened t rf wf)) e (
      then-Leaves (Taken t rf) (PipeOpened t rf wf) (fdalloc rf s) (pipe_first fdarray rf wf)
        (fdalloc-Taken t rf s refl) (pipe_first-Opened t fdarray rf wf))
