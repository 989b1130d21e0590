-- ===== src/Common/Maps.antt =====
-- Memory, disks and tables as functions on addresses, changed at one address.
use Prim.Native.Nat.{ℕ}
use mathlib.Core.Path.{◌≡◌}
use mathlib.Core.Logic.{◌≢◌}
use native.Mathlib.Omega.{arith}
use learn_mit_s.Common.Tests.{◌==◌, if◌then◌else◌, ==_refl, ==_ne}

abbrev pub update {ℓ} : {A : Type ℓ} → (ℕ → A) → ℕ → A → ℕ → A
update f i v j = if i == j then v else f j

module _ {ℓ} {A : Type ℓ} (f : ℕ → A) (i : ℕ) (v : A) where
  pub update_self : update f i v i ≡ v
  update_self = ground (arith, ==_refl i)

  pub update_ne : (j : ℕ) → i ≢ j → update f i v j ≡ f j
  update_ne j h = ground (arith, ==_ne i j h)
