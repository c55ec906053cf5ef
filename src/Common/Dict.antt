-- ===== src/Common/Dict.antt =====
-- Go maps with text keys, as association lists. A map visits its entries in no fixed order; code
-- whose result depends on that order takes the visited list as an argument.
use agentfactory_gateway.Common.Tests.{◌==◌, if◌then◌else◌}
use agentfactory_gateway.Common.Lists.{length}
use Prim.Native.Nat.{suc, ◌≤◌}
use Prim.Native.String.{String}
use mathlib.Core.Path.{◌≡◌, refl}
use mathlib.Core.Bool.{Bool, true, false}
use mathlib.Core.Option.{Option, none, some}
use mathlib.Core.List.{List, [], ◌∷◌}
use native.Mathlib.Omega.{arith}

abbrev pub Dict {ℓ} : Type ℓ → Type ℓ
Dict V = List (String × V)

module _ {ℓ} {V : Type ℓ} where
  unfoldable pub lookup : String → Dict V → Option V
  lookup k [] = none
  lookup k ((j, v) ∷ m) = let rest = lookup k m in if j == k then some v else rest

  -- m[k] = v
  unfoldable pub insert : String → V → Dict V → Dict V
  insert k v [] = (k, v) ∷ []
  insert k v ((j, w) ∷ m) = let rest = insert k v m in if j == k then (k, v) ∷ m else (j, w) ∷ rest

  -- delete(m, k)
  unfoldable pub delete : String → Dict V → Dict V
  delete k [] = []
  delete k ((j, w) ∷ m) = let rest = delete k m in if j == k then rest else (j, w) ∷ rest

  abbrev pub values : Dict V → List V
  values [] = []
  values ((k, v) ∷ m) = v ∷ values m

  abbrev pub has_key : String → Dict V → Bool
  has_key k m = elim (lookup k m) [ none ↦ false | some _ ↦ true ]

  -- Every entry has a property of its key and value.
  abbrev pub Entries {κ} : (String → V → Type κ) → Dict V → Type κ
  Entries P [] = Unit
  Entries P ((k, v) ∷ m) = P k v × Entries P m

  -- No key stands twice.
  abbrev pub HasUniqueKeys : Dict V → Type ℓ
  HasUniqueKeys [] = Unit
  HasUniqueKeys ((k, v) ∷ m) = (lookup k m ≡ none) × HasUniqueKeys m

  pub lookup-insert :
      (j k : String) (v : V) (m : Dict V)
      → lookup j (insert k v m) ≡ (if k == j then some v else lookup j m)
  unfolding lookup insert
  lookup-insert j k v [] = refl
  lookup-insert j k v ((i, w) ∷ m) = ground (arith, lookup-insert j k v m)

  pub lookup-delete :
      (j k : String) (m : Dict V) → lookup j (delete k m) ≡ (if k == j then none else lookup j m)
  unfolding lookup delete
  lookup-delete j k [] = ground arith
  lookup-delete j k ((i, w) ∷ m) = ground (arith, lookup-delete j k m)

  pub HasUniqueKeys-insert :
      (k : String) (v : V) (m : Dict V) → HasUniqueKeys m → HasUniqueKeys (insert k v m)
  unfolding lookup insert
  HasUniqueKeys-insert k v [] h = (refl, tt)
  HasUniqueKeys-insert k v ((j, w) ∷ m) h =
      ground (arith, HasUniqueKeys-insert k v m h.1, lookup-insert j k v m)

  pub HasUniqueKeys-delete :
      (k : String) (m : Dict V) → HasUniqueKeys m → HasUniqueKeys (delete k m)
  unfolding lookup delete
  HasUniqueKeys-delete k [] h = tt
  HasUniqueKeys-delete k ((j, w) ∷ m) h =
      ground (arith, HasUniqueKeys-delete k m h.1, lookup-delete j k m)

  pub length-insert_new :
      (k : String) (v : V) (m : Dict V) → lookup k m ≡ none → length (insert k v m) ≡ suc (length m)
  unfolding lookup insert
  length-insert_new k v [] h = refl
  length-insert_new k v ((j, w) ∷ m) h = ground (arith, length-insert_new k v m)

  pub length-insert_old :
      (k : String) (v : V) (m : Dict V) {w : V}
      → lookup k m ≡ some w
      → length (insert k v m) ≡ length m
  unfolding lookup insert
  length-insert_old k v [] h = ground arith
  length-insert_old k v ((j, x) ∷ m) {w} h = ground (arith, length-insert_old k v m {w = w})

  pub delete_absent : (k : String) (m : Dict V) → lookup k m ≡ none → delete k m ≡ m
  unfolding lookup delete
  delete_absent k [] h = refl
  delete_absent k ((j, x) ∷ m) h = ground (arith, delete_absent k m)

  pub length-delete_present :
      (k : String) (m : Dict V) {w : V}
      → HasUniqueKeys m
      → lookup k m ≡ some w
      → suc (length (delete k m)) ≡ length m
  unfolding lookup delete
  length-delete_present k [] u h = ground arith
  length-delete_present k ((j, x) ∷ m) {w} u h =
      ground (arith, length-delete_present k m {w = w} u.1, delete_absent k m)

  pub length-delete-le : (k : String) (m : Dict V) → length (delete k m) ≤ length m
  unfolding delete
  length-delete-le k [] = omega arith
  length-delete-le k ((j, x) ∷ m) = ground (arith, length-delete-le k m)

module _ {ℓ κ} {V : Type ℓ} (P : String → V → Type κ) where
  pub Entries-insert :
      (k : String) (v : V) (m : Dict V) → P k v → Entries P m → Entries P (insert k v m)
  unfolding insert
  Entries-insert k v [] p h = (p, tt)
  Entries-insert k v ((j, w) ∷ m) p h = ground (arith, Entries-insert k v m p h.1)

  pub Entries-delete : (k : String) (m : Dict V) → Entries P m → Entries P (delete k m)
  unfolding delete
  Entries-delete k [] h = tt
  Entries-delete k ((j, w) ∷ m) h = ground (arith, Entries-delete k m h.1)

  pub Entries-lookup : (k : String) (m : Dict V) {v : V} → Entries P m → lookup k m ≡ some v → P k v
  unfolding lookup
  Entries-lookup k [] h e = ground arith
  Entries-lookup k ((j, w) ∷ m) {v} h e = ground (arith, Entries-lookup k m {v = v} h.1)
