-- ===== src/Common/Dict.antt =====
-- `HashMap`: an association list over keys with a Boolean equality. A lookup reads the first
-- entry of the key; `remove` takes every entry of the key out.
use Prim.Native.Nat.{ℕ}
use mathlib.Core.Path.{◌≡◌, refl}
use mathlib.Core.Logic.{◌↔◌}
use mathlib.Core.Bool.{Bool, true, false, ◌&&◌}
use mathlib.Core.List.{List, [], ◌∷◌}
use mathlib.Core.Option.{Option, none, some}
use native.Mathlib.Omega.{arith}
use fish.Common.Tests.{◌==◌, ==_iff, if◌then◌else◌, is_some}

pub record SameKey {ℓ} (K : Type ℓ) : Type ℓ where
  pub same : (j k : K) → Bool
  pub same_iff : (j k : K) → (same j k ≡ true) ↔ (j ≡ k)

instance abbrev pub nat_eq : SameKey ℕ
nat_eq = record { same = λ a b. a == b; same_iff = ==_iff }

abbrev pub same_list : List ℕ → List ℕ → Bool
same_list [] [] = true
same_list [] (y ∷ ys) = false
same_list (x ∷ xs) [] = false
same_list (x ∷ xs) (y ∷ ys) = (x == y) && same_list xs ys

pub same_list_iff : (xs ys : List ℕ) → (same_list xs ys ≡ true) ↔ (xs ≡ ys)
same_list_iff [] [] = ground arith
same_list_iff [] (y ∷ ys) = ground arith
same_list_iff (x ∷ xs) [] = ground arith
same_list_iff (x ∷ xs) (y ∷ ys) = ground (arith, same_list_iff xs ys)

instance abbrev pub list_eq : SameKey (List ℕ)
list_eq = record { same = same_list; same_iff = same_list_iff }

module _ {ℓ κ} {K : Type ℓ} {V : Type κ} ⦃e : SameKey K⦄ where
  unfoldable pub lookup : K → List (K × V) → Option V
  lookup k [] = none
  lookup k ((j, v) ∷ m) = if e.same j k then some v else lookup k m

  unfoldable pub insert : K → V → List (K × V) → List (K × V)
  insert k v [] = (k, v) ∷ []
  insert k v ((j, w) ∷ m) = if e.same j k then (k, v) ∷ m else (j, w) ∷ insert k v m

  unfoldable pub remove : K → List (K × V) → List (K × V)
  remove k [] = []
  remove k ((j, w) ∷ m) = let rest = remove k m in if e.same j k then rest else (j, w) ∷ rest

  unfoldable pub contains_key : K → List (K × V) → Bool
  unfolding lookup
  contains_key k m = is_some (lookup k m)

  pub lookup-insert :
      (k j : K) (v : V) (m : List (K × V))
      → lookup j (insert k v m) ≡ (if e.same k j then some v else lookup j m)
  unfolding lookup insert
  lookup-insert k j v [] = refl
  lookup-insert k j v ((i, w) ∷ m) =
      ground (arith, e.same_iff k j, e.same_iff i k, e.same_iff i j, lookup-insert k j v m)

  pub lookup-remove :
      (k j : K) (m : List (K × V))
      → lookup j (remove k m) ≡ (if e.same k j then none else lookup j m)
  unfolding lookup remove
  lookup-remove k j [] = ground arith
  lookup-remove k j ((i, w) ∷ m) =
      ground (arith, e.same_iff k j, e.same_iff i k, e.same_iff i j, lookup-remove k j m)

  pub lookup-insert_self : (k : K) (v : V) (m : List (K × V)) → lookup k (insert k v m) ≡ some v
  lookup-insert_self k v m = ground (arith, lookup-insert k k v m, e.same_iff k k)

  pub lookup-remove_self : (k : K) (m : List (K × V)) → lookup k (remove k m) ≡ none
  lookup-remove_self k m = ground (arith, lookup-remove k k m, e.same_iff k k)
