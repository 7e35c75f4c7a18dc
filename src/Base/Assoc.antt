-- ===== src/Base/Assoc.antt =====
-- QHash and QMap as association lists: a key is written where it stands, or at the end.
use mathlib.Core.Path.{◌≡◌, refl}
use mathlib.Core.Logic.{◌↔◌}
use mathlib.Core.Bool.{Bool, true}
use mathlib.Core.Option.{Option, none, some}
use mathlib.Core.List.{List, [], ◌∷◌}
use native.Mathlib.Omega.{arith}
use batorrent.Base.Tests.{if◌then◌else◌}

module _ {ℓ κ} {K : Type ℓ} {V : Type κ} (eq : K → K → Bool) where
  unfoldable pub find : K → List (K × V) → Option V
  find k [] = none
  find k ((j, v) ∷ m) = if eq j k then some v else find k m

  unfoldable pub assign : K → V → List (K × V) → List (K × V)
  assign k v [] = (k, v) ∷ []
  assign k v ((j, w) ∷ m) = if eq j k then (j, v) ∷ m else (j, w) ∷ assign k v m

  module _ (eq_iff : (j k : K) → (eq j k ≡ true) ↔ (j ≡ k)) where
    pub find-assign :
        (k j : K) (v : V) (m : List (K × V))
        → find j (assign k v m) ≡ (if eq k j then some v else find j m)
    unfolding find assign
    find-assign k j v [] = refl
    find-assign k j v ((i, w) ∷ m) =
        ground (arith, eq_iff k j, eq_iff i k, eq_iff i j, find-assign k j v m)
