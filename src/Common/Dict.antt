-- ===== src/Common/Dict.antt =====
-- Go maps as association lists. The order of the list is the order in which `range` meets the
-- entries; Go fixes none, so statements hold for every order.
use bit_torrent_project.Common.Tests.{if◌then◌else◌}
use bit_torrent_project.Common.Equality.{Eq, ◌==◌, eq_self}
use bit_torrent_project.Common.Lists.{length}
use Prim.Native.Nat.{◌+◌, ◌≤◌}
use mathlib.Core.Path.{◌≡◌, refl}
use mathlib.Core.Bool.{Bool, true, false}
use mathlib.Core.List.{List, [], ◌∷◌}
use mathlib.Core.Option.{Option, none, some}
use native.Mathlib.Omega.{arith}

abbrev pub Dict {ℓ κ} : Type ℓ → Type κ → Type (ℓ ⊔ κ)
Dict K V = List (K × V)

module _ {ℓ κ} {K : Type ℓ} {V : Type κ} ⦃e : Eq K⦄ where
  -- `m[k]`, with `none` where the key is missing.
  abbrev pub lookup : K → Dict K V → Option V
  lookup k [] = none
  lookup k ((j, v) ∷ m) = if j == k then some v else lookup k m

  -- `_, in := m[k]`.
  abbrev pub has : K → Dict K V → Bool
  has k [] = false
  has k ((j, v) ∷ m) = if j == k then true else has k m

  -- `m[k] = v`.
  abbrev pub insert : K → V → Dict K V → Dict K V
  insert k v [] = (k, v) ∷ []
  insert k v ((j, w) ∷ m) = if j == k then (k, v) ∷ m else (j, w) ∷ insert k v m

  -- `delete(m, k)`.
  abbrev pub delete : K → Dict K V → Dict K V
  delete k [] = []
  delete k ((j, w) ∷ m) = if j == k then delete k m else (j, w) ∷ delete k m

  -- No key occurs twice.
  abbrev pub IsMap : Dict K V → Type 0
  IsMap [] = Unit {0}
  IsMap ((j, w) ∷ m) = (has j m ≡ false) × IsMap m

module _ {ℓ κ} {K : Type ℓ} {V : Type κ} ⦃e : Eq K⦄ where
  pub lookup-insert :
      (k j : K) (v : V) (m : Dict K V)
      → lookup j (insert k v m) ≡ (if k == j then some v else lookup j m)
  lookup-insert k j v [] = refl
  lookup-insert k j v ((i, w) ∷ m) =
      ground (arith, e.test_iff k j, e.test_iff i k, e.test_iff i j, lookup-insert k j v m)

  pub lookup-insert_self : (k : K) (v : V) (m : Dict K V) → lookup k (insert k v m) ≡ some v
  lookup-insert_self k v m = ground (arith, lookup-insert k k v m, eq_self k)

  pub lookup-delete :
      (k j : K) (m : Dict K V) → lookup j (delete k m) ≡ (if k == j then none else lookup j m)
  lookup-delete k j [] = ground arith
  lookup-delete k j ((i, w) ∷ m) =
      ground (arith, e.test_iff k j, e.test_iff i k, e.test_iff i j, lookup-delete k j m)

  pub has-insert :
      (k j : K) (v : V) (m : Dict K V) → has j (insert k v m) ≡ (if k == j then true else has j m)
  has-insert k j v [] = refl
  has-insert k j v ((i, w) ∷ m) =
      ground (arith, e.test_iff k j, e.test_iff i k, e.test_iff i j, has-insert k j v m)

  pub has-delete :
      (k j : K) (m : Dict K V) → has j (delete k m) ≡ (if k == j then false else has j m)
  has-delete k j [] = ground arith
  has-delete k j ((i, w) ∷ m) =
      ground (arith, e.test_iff k j, e.test_iff i k, e.test_iff i j, has-delete k j m)

  pub insert-IsMap : (k : K) (v : V) (m : Dict K V) → IsMap m → IsMap (insert k v m)
  insert-IsMap k v [] h = (refl, tt)
  insert-IsMap k v ((i, w) ∷ m) h =
      ground (arith, e.test_iff k i, e.test_iff i k, has-insert k i v m, insert-IsMap k v m h.1)

  pub delete-IsMap : (k : K) (m : Dict K V) → IsMap m → IsMap (delete k m)
  delete-IsMap k [] h = tt
  delete-IsMap k ((i, w) ∷ m) h =
      ground (arith, e.test_iff k i, e.test_iff i k, has-delete k i m, delete-IsMap k m h.1)

  pub lookup-eq_none : (k : K) (m : Dict K V) → lookup k m ≡ none → has k m ≡ false
  lookup-eq_none k [] h = refl
  lookup-eq_none k ((i, w) ∷ m) h = ground (arith, lookup-eq_none k m)

  pub has-eq_false : (k : K) (m : Dict K V) → has k m ≡ false → lookup k m ≡ none
  has-eq_false k [] h = refl
  has-eq_false k ((i, w) ∷ m) h = ground (arith, has-eq_false k m)

  pub has_of_lookup : (k : K) (m : Dict K V) (v : V) → lookup k m ≡ some v → has k m ≡ true
  has_of_lookup k [] v h = cc
  has_of_lookup k ((i, w) ∷ m) v h = ground (arith, has_of_lookup k m v)

  pub length-insert : (k : K) (v : V) (m : Dict K V) → length (insert k v m) ≤ length m + 1
  length-insert k v [] = omega arith
  length-insert k v ((i, w) ∷ m) = ground (arith, length-insert k v m)
