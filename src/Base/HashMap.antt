-- ===== src/Base/HashMap.antt =====
-- `HashMap<K, V>` of the standard library with numeric keys, as an association list. The order of
-- the entries stands for the order of an iteration, which is not known; only the exact index iterates.
use Prim.Native.Nat.{ℕ}
use mathlib.Core.Path.{◌≡◌, refl, sym, ◌∙◌}
use mathlib.Core.Logic.{◌≢◌, inl, inr}
use mathlib.Core.Option.{Option, none, some}
use mathlib.Core.List.{List, [], ◌∷◌}
use native.Mathlib.Omega.{arith}
use grainstore.Base.Tests.{◌==◌, if◌then◌else◌, Bool-cases}

module _ {ℓ} {V : Type ℓ} where
  -- map.get(&k)
  unfoldable pub get : ℕ → List (ℕ × V) → Option V
  get k [] = none
  get k ((j, v) ∷ m) = if j == k then some v else get k m

  -- map.insert(k, v)
  unfoldable pub insert : ℕ → V → List (ℕ × V) → List (ℕ × V)
  insert k v [] = (k, v) ∷ []
  insert k v ((j, w) ∷ m) = if j == k then (k, v) ∷ m else (j, w) ∷ insert k v m

  -- map.remove(&k)
  unfoldable pub remove : ℕ → List (ℕ × V) → List (ℕ × V)
  remove k [] = []
  remove k ((j, w) ∷ m) = let rest = remove k m in if j == k then rest else (j, w) ∷ rest

  -- map.entry(k).or_insert(v), without the reference that it returns
  unfoldable pub or_insert : ℕ → V → List (ℕ × V) → List (ℕ × V)
  or_insert k v m = elim (get k m) [ some _ ↦ m | none ↦ insert k v m ]

  pub get-insert :
      (k j : ℕ) (v : V) (m : List (ℕ × V))
      → get j (insert k v m) ≡ (if k == j then some v else get j m)
  unfolding get insert
  get-insert k j v [] = refl
  get-insert k j v ((i, w) ∷ m) = ground (arith, get-insert k j v m)

  pub get-remove :
      (k j : ℕ) (m : List (ℕ × V)) → get j (remove k m) ≡ (if k == j then none else get j m)
  unfolding get remove
  get-remove k j [] = ground arith
  get-remove k j ((i, w) ∷ m) = ground (arith, get-remove k j m)

  -- On a key that is absent `or_insert` is `insert`.
  pub or_insert_absent :
      (k : ℕ) (v : V) (m : List (ℕ × V)) → get k m ≡ none → or_insert k v m ≡ insert k v m
  unfolding or_insert
  or_insert_absent k v m h = rw (h, or_insert)

pub get-remove_other : (sid k : ℕ) (m : List (ℕ × ℕ)) → sid ≢ k → get k (remove sid m) ≡ get k m
get-remove_other sid k m other = ground (arith, get-remove sid k m)

pub get-remove_cases :
    (sid k i : ℕ) (m : List (ℕ × ℕ))
    → get k (remove sid m) ≡ some i
    → (sid ≢ k) × (get k m ≡ some i)
get-remove_cases sid k i m h = elim (Bool-cases (sid == k)) [
  | inl same ↦ absurd (ground (arith, get-remove sid k m))
  | inr other ↦
      let apart : (sid ≢ k) = λ e. ground arith in (apart, sym (get-remove_other sid k m apart) ∙ h)
]

pub get-insert_self : (k n : ℕ) (m : List (ℕ × ℕ)) → get k (insert k n m) ≡ some n
get-insert_self k n m = ground (arith, get-insert k k n m)

pub get-insert_other : (sid k n : ℕ) (m : List (ℕ × ℕ)) → sid ≢ k → get k (insert sid n m) ≡ get k m
get-insert_other sid k n m other = ground (arith, get-insert sid k n m)
