-- ===== src/Base/Table.antt =====
-- A keyed store, such as Redis, as an association list: the first entry of a key counts.
use mathlib.Core.Path.{◌≡◌, refl}
use mathlib.Core.Option.{Option, none, some}
use mathlib.Core.List.{List, [], ◌∷◌}
use native.Mathlib.Omega.{arith}
use myfipay.Base.Tests.{if◌then◌else◌}
use myfipay.Base.Equal.{HasEq, ◌==◌}

abbrev pub Table {ℓ κ} : Type ℓ → Type κ → Type (ℓ ⊔ κ)
Table K V = List (K × V)

module _ {ℓ κ} {K : Type ℓ} {V : Type κ} ⦃key : HasEq K⦄ where
  unfoldable pub find : Table K V → K → Option V
  find [] k = none
  find (entry ∷ rest) k = if k == entry.0 then some entry.1 else find rest k

  -- A write stands in front of what it hides.
  unfoldable pub put : Table K V → K → V → Table K V
  put table k v = (k, v) ∷ table

  unfoldable pub drop_key : Table K V → K → Table K V
  drop_key [] k = []
  drop_key (entry ∷ rest) k =
      let kept = drop_key rest k in if k == entry.0 then kept else entry ∷ kept

  pub find-put :
      (table : Table K V) (k j : K) (v : V)
      → find (put table k v) j ≡ (if j == k then some v else find table j)
  unfolding find put
  find-put table k j v = refl

  pub find-drop_key :
      (table : Table K V) (k j : K)
      → find (drop_key table k) j ≡ (if j == k then none else find table j)
  unfolding find drop_key
  find-drop_key [] k j = ground arith
  find-drop_key (entry ∷ rest) k j = ground (
    arith,
    key.equals_iff j k,
    key.equals_iff k entry.0,
    key.equals_iff j entry.0,
    find-drop_key rest k j,
  )
