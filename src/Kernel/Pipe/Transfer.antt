-- ===== src/Kernel/Pipe/Transfer.antt =====
-- `pipewrite` and `piperead` move bytes through the pipe in order, without loss between them.
use learn_mit_s.Common.{
  ℕ, zero, suc, ◌+◌, ◌≤◌, ◌<◌, ◌≡◌, refl, sym, ap, ◌∙◌, ◌↔◌, ◌⊎◌, inl, inr, Bool, true, false, not,
  ◌&&◌, ◌||◌, Option, none, some, List, [], ◌∷◌, ◌++◌, arith, ◌==◌, ==→eq, ==_false, Bool-cases,
  Option-cases, length, pos, negsuc,
}
use mathlib.Core.Path.{subst}
use mathlib.Core.List.{append-nil, append_assoc}
use learn_mit_s.Kernel.Pipe.{
  pipesize, add32, Pipe, put, get, Outcome, returns, sleeps, write_from, pipewrite, read_from,
  piperead,
}
use learn_mit_s.Kernel.Pipe.Contents.{window, count, contents, IsValid, put-contents, get-contents}

-- The bytes at the user addresses from `a` on, `k` of them.
abbrev pub Sent : (ℕ → Option ℕ) → ℕ → List ℕ → Type 0
Sent user a [] = Unit
Sent user a (ch ∷ chs) = (user a ≡ some ch) × Sent user (a + 1) chs

-- What a writer has done that stops with `i` bytes behind it, at the byte at `a`, with `r` left.
abbrev pub Stopped : (ℕ → Option ℕ) → ℕ → Bool → ℕ → ℕ → Pipe → Outcome → Type 0
Stopped user addr killed i n pi (sleeps j pi') =
    (i ≡ j) × (pi ≡ pi') × (count pi ≡ pipesize) × (pi.readopen ≡ true) × (killed ≡ false)
Stopped user addr killed i n pi (returns (pos j) pi') =
    (i ≡ j) × (pi ≡ pi') × ((i ≡ n) ⊎ (user (addr + i) ≡ none))
Stopped user addr killed i n pi (returns (negsuc j) pi') =
    (j ≡ 0) × (pi ≡ pi') × (count pi ≡ pipesize) × ((pi.readopen ≡ false) ⊎ (killed ≡ true))

-- The writer has put the bytes `chs` of its buffer, from byte `i` on, behind those of `pi`.
pub record Wrote (user : ℕ → Option ℕ) (addr : ℕ) (killed : Bool) (i n : ℕ) (pi : Pipe)
    (out : Outcome) : Type 0 where
  pub chs : List ℕ
  pub last : Pipe
  pub sent : Sent user (addr + i) chs
  pub valid : IsValid last
  pub queued : contents last ≡ contents pi ++ chs
  pub at : ℕ
  pub behind : at ≡ i + length chs
  pub stopped : Stopped user addr killed at n last out

full_iff : (pi : Pipe) → IsValid pi → (pi.nwrite ≡ add32 pi.nread pipesize) ↔ (count pi ≡ pipesize)
full_iff pi v = (λ e. omega arith, λ e. omega arith)

has_room :
    (pi : Pipe) → IsValid pi → (pi.nwrite == add32 pi.nread pipesize) ≡ false → count pi < pipesize
has_room pi v e = let w = v.within in omega (arith, (full_iff pi v).1, ==_false _ _ e)

module _ (user : ℕ → Option ℕ) (addr : ℕ) (killed : Bool) where
  halt :
      (i n : ℕ) (pi : Pipe) (out : Outcome)
      → IsValid pi
      → Stopped user addr killed i n pi out
      → Wrote user addr killed i n pi out
  halt i n pi out v s = record {
    chs = [];
    last = pi;
    sent = tt;
    valid = v;
    queued = sym (append-nil (contents pi));
    at = i;
    behind = omega arith;
    stopped = s;
  }

  extend :
      (i n ch : ℕ) (pi : Pipe) (out : Outcome)
      → IsValid pi
      → count pi < pipesize
      → user (addr + i) ≡ some ch
      → Wrote user addr killed (i + 1) n (put ch pi) out
      → Wrote user addr killed i n pi out
  extend i n ch pi out v lt u w = record {
    chs = ch ∷ w.chs;
    last = w.last;
    sent = (u, subst (λ a. Sent user a w.chs) (omega arith) w.sent);
    valid = w.valid;
    queued =
        w.queued
        ∙ ap (λ l. l ++ w.chs) (put-contents ch pi v lt).1
        ∙ append_assoc (contents pi) (ch ∷ []) w.chs;
    at = w.at;
    behind = let b = w.behind in omega arith;
    stopped = w.stopped;
  }

  write_from-Wrote :
      (r i n : ℕ) (pi : Pipe)
      → i + r ≡ n
      → IsValid pi
      → Wrote user addr killed i n pi (write_from user addr killed r i pi)
  unfolding write_from
  write_from-Wrote zero i n pi e v = halt i n pi _ v (refl, refl, inl (omega arith))
  write_from-Wrote (suc r) i n pi e v = elim (Bool-cases (pi.nwrite == add32 pi.nread pipesize)) [
    | inl full ↦
        let f : count pi ≡ pipesize = (full_iff pi v).0 (==→eq _ _ full) in
        elim (Bool-cases (not pi.readopen || killed)) [
          | inl stop ↦ rw (full, stop) (halt i n pi _ v (refl, refl, f, ground arith))
          | inr wait ↦ rw (full, wait) (halt i n pi _ v (refl, refl, f, ground arith, ground arith))
        ]
    | inr room ↦ elim (Option-cases (user (addr + i))) [
      | inl bad ↦ rw (room, bad) (halt i n pi _ v (refl, refl, inr bad))
      | inr (ch, u) ↦
          let lt : count pi < pipesize = has_room pi v room in
          rw (room, u)
            (extend i n ch pi _ v lt u
              (write_from-Wrote r (i + 1) n (put ch pi) (omega arith) (put-contents ch pi v lt).0))
    ]
  ]

  -- For a pipe that holds at most 512 bytes: wherever `pipewrite` stops, the bytes of the user's
  -- buffer up to there, and no others, stand in order behind those that the pipe held. It stops
  -- with all `n` bytes written or at a byte that cannot be read, and returns the number written;
  -- or with the pipe full, and then it sleeps if the read end is open and the process not killed,
  -- and returns -1 if not.
  pub pipewrite-Wrote :
      (n : ℕ) (pi : Pipe)
      → IsValid pi
      → Wrote user addr killed 0 n pi (pipewrite user addr killed n pi)
  unfolding pipewrite
  pipewrite-Wrote n pi v = write_from-Wrote n 0 n pi (omega arith) v

-- What a reader of at most `r` bytes from byte `i` on has done.
pub record Read (writable : ℕ → Bool) (addr i r : ℕ) (pi : Pipe) (out : List ℕ) (last : Pipe)
    : Type 0 where
  pub lost : List ℕ
  pub valid : IsValid last
  pub taken : contents pi ≡ out ++ lost ++ contents last
  pub delivered : length out ≤ r
  pub ending :
      ((lost ≡ []) × ((length out ≡ r) ⊎ (contents last ≡ [])))
      ⊎ ((length lost ≡ 1) × (writable (addr + i + length out) ≡ false))

empty : (pi : Pipe) → IsValid pi → pi.nread ≡ pi.nwrite → contents pi ≡ []
empty pi v e = ap (window pi.bytes pi.nread) none_left
  where
    none_left : count pi ≡ 0
    none_left = omega arith

module _ (writable : ℕ → Bool) (addr : ℕ) where
  read_from-Read :
      (r i : ℕ) (pi : Pipe)
      → IsValid pi
      → let (out, last) = read_from writable addr r i pi in Read writable addr i r pi out last
  unfolding read_from
  read_from-Read zero i pi v = record {
    lost = [];
    valid = v;
    taken = refl;
    delivered = omega arith;
    ending = inl (refl, inl refl);
  }
  read_from-Read (suc r) i pi v = elim (Bool-cases (pi.nread == pi.nwrite)) [
    | inl e ↦ rw e (record {
      lost = [];
      valid = v;
      taken = refl;
      delivered = omega arith;
      ending = inl (refl, inr (empty pi v (==→eq _ _ e)));
    })
    | inr e ↦
        let (v', front) = get-contents pi v (==_false _ _ e) in
        elim (Bool-cases (writable (addr + i))) [
          | inr bad ↦
              rw (e, bad)
                (record {
                  lost = (get pi).0 ∷ [];
                  valid = v';
                  taken = front;
                  delivered = omega arith;
                  ending = inr (refl, ap writable (omega arith) ∙ bad);
                })
          | inl good ↦
              let rest = read_from-Read r (i + 1) (get pi).1 v' in
              rw (e, good)
                (record {
                  lost = rest.lost;
                  valid = rest.valid;
                  taken = front ∙ ap (◌∷◌ (get pi).0) rest.taken;
                  delivered = let d = rest.delivered in omega arith;
                  ending = elim rest.ending [
                    | inl (l, inl d) ↦ inl (l, inl (omega arith))
                    | inl (l, inr d) ↦ inl (l, inr d)
                    | inr (l, w) ↦ inr (l, ap writable (omega arith) ∙ w)
                  ];
                })
        ]
  ]

-- What a call of `piperead` that sleeps, fails or copies has done.
pub data ReadDone (writable : ℕ → Bool) (addr n : ℕ) (killed : Bool) (pi : Pipe)
    : List ℕ → Outcome → Type 0 where
  asleep :
      contents pi ≡ []
      → pi.writeopen ≡ true
      → killed ≡ false
      → ReadDone writable addr n killed pi [] (sleeps 0 pi)
  failed :
      contents pi ≡ []
      → pi.writeopen ≡ true
      → killed ≡ true
      → ReadDone writable addr n killed pi [] (returns (negsuc 0) pi)
  copied :
      {out : List ℕ} {last : Pipe}
      → Read writable addr 0 n pi out last
      → ReadDone writable addr n killed pi out (returns (pos (length out)) last)

-- For a pipe that holds at most 512 bytes: `piperead` sleeps, or returns -1 if the process is
-- killed, on a pipe that is empty and still open for writing. Else it delivers the oldest bytes
-- in order and returns their number: as many as were asked for, or all that there are, or those
-- before a byte that it cannot store, which is lost.
pub piperead-ReadDone :
    (writable : ℕ → Bool) (addr n : ℕ) (killed : Bool) (pi : Pipe)
    → IsValid pi
    → let (out, r) = piperead writable addr killed n pi in ReadDone writable addr n killed pi out r
unfolding piperead
piperead-ReadDone writable addr n killed pi v =
    elim (Bool-cases (pi.nread == pi.nwrite && pi.writeopen)) [
      | inr e ↦ rw e (copied (read_from-Read writable addr n 0 pi v))
      | inl e ↦
          let none_left = empty pi v (ground arith) in
          elim (Bool-cases killed) [
            | inl k ↦ rw (e, k) (failed none_left (ground arith) refl)
            | inr k ↦ rw (e, k) (asleep none_left (ground arith) refl)
          ]
    ]
