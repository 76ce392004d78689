-- ===== src/Base/Slots.antt =====
-- Reading and writing a list at an index.
use Prim.Native.Nat.{ℕ, zero, suc, ◌<◌}
use mathlib.Core.Path.{◌≡◌, refl, ap, subst}
use mathlib.Core.List.{List, [], ◌∷◌, ◌++◌}
use mathlib.Core.Logic.{◌≢◌, ◌⊎◌, inl, inr}
use mathlib.Core.Option.{some, some_inj}
use native.Mathlib.Omega.{arith}
use grainstore.Base.Lists.{All, length, get_elem?, set}

module _ {ℓ} {A : Type ℓ} where
  -- An index in bounds reads an element.
  pub get_elem?_total : (xs : List A) (i : ℕ) → i < length xs → (x : A) × (get_elem? xs i ≡ some x)
  get_elem?_total [] i h = absurd (omega arith)
  get_elem?_total (x ∷ xs) zero h = (x, refl)
  get_elem?_total (x ∷ xs) (suc i) h = get_elem?_total xs i (omega arith)

  pub lt-of_get_elem? : (xs : List A) (i : ℕ) (x : A) → get_elem? xs i ≡ some x → i < length xs
  lt-of_get_elem? [] i x h = absurd (cc)
  lt-of_get_elem? (y ∷ xs) zero x h = omega arith
  lt-of_get_elem? (y ∷ xs) (suc i) x h = omega (arith, lt-of_get_elem? xs i x h)

  pub All-get_elem? {κ} :
      (P : A → Type κ) (xs : List A) (i : ℕ) (x : A) → All P xs → get_elem? xs i ≡ some x → P x
  All-get_elem? P [] i x all h = absurd (cc)
  All-get_elem? P (y ∷ xs) zero x all h = subst P (some_inj.0 h) all.0
  All-get_elem? P (y ∷ xs) (suc i) x all h = All-get_elem? P xs i x all.1 h

  pub All-set {κ} :
      (P : A → Type κ) (xs : List A) (i : ℕ) (x : A) → All P xs → P x → All P (set xs i x)
  All-set P [] i x all p = tt
  All-set P (y ∷ xs) zero x all p = (p, all.1)
  All-set P (y ∷ xs) (suc i) x all p = (all.0, All-set P xs i x all.1 p)

  pub get_elem?-set_self :
      (xs : List A) (i : ℕ) (v : A) → i < length xs → get_elem? (set xs i v) i ≡ some v
  get_elem?-set_self [] i v h = absurd (omega arith)
  get_elem?-set_self (x ∷ xs) zero v h = refl
  get_elem?-set_self (x ∷ xs) (suc i) v h = get_elem?-set_self xs i v (omega arith)

  pub get_elem?-set_other :
      (xs : List A) (i j : ℕ) (v : A) → i ≢ j → get_elem? (set xs i v) j ≡ get_elem? xs j
  get_elem?-set_other [] i j v h = refl
  get_elem?-set_other (x ∷ xs) zero zero v h = absurd (h refl)
  get_elem?-set_other (x ∷ xs) zero (suc j) v h = refl
  get_elem?-set_other (x ∷ xs) (suc i) zero v h = refl
  get_elem?-set_other (x ∷ xs) (suc i) (suc j) v h =
      get_elem?-set_other xs i j v (λ e. h (ap (λ (n : ℕ). suc n) e))

  pub get_elem?-append_lt :
      (xs ys : List A) (i : ℕ) → i < length xs → get_elem? (xs ++ ys) i ≡ get_elem? xs i
  get_elem?-append_lt [] ys i h = absurd (omega arith)
  get_elem?-append_lt (x ∷ xs) ys zero h = refl
  get_elem?-append_lt (x ∷ xs) ys (suc i) h = get_elem?-append_lt xs ys i (omega arith)

  pub get_elem?-append_length :
      (xs : List A) (x : A) → get_elem? (xs ++ (x ∷ [])) (length xs) ≡ some x
  get_elem?-append_length [] x = refl
  get_elem?-append_length (y ∷ xs) x = get_elem?-append_length xs x

  -- What is read behind one more element was there before, or is that element.
  pub get_elem?-append_cases :
      (xs : List A) (x y : A) (i : ℕ)
      → get_elem? (xs ++ (x ∷ [])) i ≡ some y
      → (get_elem? xs i ≡ some y) ⊎ ((i ≡ length xs) × (x ≡ y))
  get_elem?-append_cases [] x y zero h = inr (refl, some_inj.0 h)
  get_elem?-append_cases [] x y (suc i) h = absurd (cc)
  get_elem?-append_cases (z ∷ xs) x y zero h = inl h
  get_elem?-append_cases (z ∷ xs) x y (suc i) h = elim (get_elem?-append_cases xs x y i h) [
    | inl before ↦ inl before
    | inr (last, same) ↦ inr (ap (λ (n : ℕ). suc n) last, same)
  ]
