-- ===== src/Kernel/Sleeplock/Tests.antt =====
-- A sleep lock that process 3 has taken, and the theorems on it.
use learn_mit_s.Common.{◌≡◌, refl, ◌↔◌, true, false, none, update}
use learn_mit_s.Kernel.Sleeplock.{initsleeplock, acquiresleep, holdingsleep}
use learn_mit_s.Kernel.Sleeplock.Owner.{Users, acquire, Reach, start, later, holdingsleep-true_iff}

abbrev taken : Users
taken = record { lock = record { locked = true; pid = 3 }; inside = update (λ _. false) 3 true }

taken-Reach : Reach taken
unfolding acquiresleep initsleeplock
taken-Reach = later start (acquire 3 refl)

second_sleeps : acquiresleep 4 taken.lock ≡ none
unfolding acquiresleep
second_sleeps = refl

holdingsleep-true_iff_example : (holdingsleep 3 taken.lock ≡ true) ↔ (taken.inside 3 ≡ true)
holdingsleep-true_iff_example = holdingsleep-true_iff taken-Reach 3
