-- ===== src/Kernel/Log/Several.antt =====
-- Several calls of `log_write` in a row, as a call between `begin_op` and `end_op` makes them.
use learn_mit_s.Common.{
  ℕ, ◌+◌, ◌≤◌, ◌<◌, ◌≡◌, refl, ap, ◌∙◌, Option, none, some, List, [], ◌∷◌, arith, length, Bool,
  true, false, Bool-cases, ◌==◌, update, inl, inr, suc,
}
use learn_mit_s.Kernel.Log.{logsize, Log, rounds, absorb, log_write}

abbrev after : (Log → Option Log) → Option (Log × Bool) → Option Log
after rest none = none
after rest (some (lg, _)) = rest lg

-- The log after `log_write` of each block of the list, or `none` where one of the calls panics.
abbrev pub log_all : List ℕ → Log → Option Log
log_all [] lg = some lg
log_all (b ∷ bs) lg = after (log_all bs) (log_write b lg)

-- A log with room for `k` blocks more, within a transaction.
pub record HasRoom (lg : Log) (k : ℕ) : Type 0 where
  pub begun : 0 < lg.outstanding
  pub fits_header : lg.lh.n + k ≤ logsize
  pub fits_disk : lg.lh.n + k < lg.size

pub HasRoom-le : {lg : Log} {k k' : ℕ} → k' ≤ k → HasRoom lg k → HasRoom lg k'
HasRoom-le le room = record {
  begun = room.begun;
  fits_header = omega (arith, le, room.fits_header);
  fits_disk = omega (arith, le, room.fits_disk);
}

log_write-HasRoom :
    (b : ℕ) (lg : Log) (k : ℕ)
    → HasRoom lg (suc k)
    → (lg' : Log) × (new : Bool) × (log_write b lg ≡ some (lg', new)) × HasRoom lg' k
unfolding log_write
log_write-HasRoom b lg k room = elim (Bool-cases (i == lg.lh.n)) [
  | inl e ↦ (
    record lg { lh = record { n = lg.lh.n + 1; block = update lg.lh.block i b } },
    true,
    ground (arith, room.begun, room.fits_header, room.fits_disk, e),
    record {
      begun = room.begun;
      fits_header = omega (arith, room.fits_header);
      fits_disk = omega (arith, room.fits_disk);
    },
  )
  | inr e ↦ (
    record lg { lh = record { n = lg.lh.n; block = update lg.lh.block i b } },
    false,
    ground (arith, room.begun, room.fits_header, room.fits_disk, e),
    record {
      begun = room.begun;
      fits_header = omega (arith, room.fits_header);
      fits_disk = omega (arith, room.fits_disk);
    },
  )
]
  where
    i : ℕ
    i = absorb (rounds lg.lh.n) 0 lg.lh.block b

pub log_all-some :
    (bs : List ℕ) (lg : Log) → HasRoom lg (length bs) → (lg' : Log) × (log_all bs lg ≡ some lg')
log_all-some [] lg room = (lg, refl)
log_all-some (b ∷ bs) lg room =
    let (lg1, new, e, room1) = log_write-HasRoom b lg (length bs) room in
    let (lg', e') = log_all-some bs lg1 room1 in (lg', ap (after (log_all bs)) e ∙ e')
