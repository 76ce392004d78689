-- ===== src/Sort/Laws.antt =====
-- The sort orders its elements and keeps each of them, for a comparison by a numeric rank.
use mathlib.Core.List.{Perm}
use mathlib.Core.List.Perm
use grainstore.Base.{
  ℕ, zero, suc, ◌≤◌, ◌≡◌, ◌≢◌, List, [], ◌∷◌, All, Ordering, lt, take, drop, arith, Ordering-cases,
  inl, inr, All-take, length, length-take, take-append-drop, min, ◌++◌, refl, ◌∙◌, ap,
}
use grainstore.Sort.{insert_by, sort_by}

module _ {ℓ} {A : Type ℓ} (cmp : A → A → Ordering) where
  pub insert_by-All :
      (Q : A → Type 0) (x : A) (ys : List A) → Q x → All Q ys → All Q (insert_by cmp x ys)
  unfolding insert_by
  insert_by-All Q x [] q h = (q, tt)
  insert_by-All Q x (y ∷ ys) q h = elim (Ordering-cases (cmp y x)) [
    | inl l ↦ rw (l, insert_by) (h.0, insert_by-All Q x ys q h.1)
    | inr (inl e) ↦ rw (e, insert_by) (q, h)
    | inr (inr g) ↦ rw (g, insert_by) (q, h)
  ]

  -- Sorting keeps what holds of every element.
  pub sort_by-All : (Q : A → Type 0) (xs : List A) → All Q xs → All Q (sort_by cmp xs)
  unfolding sort_by
  sort_by-All Q [] h = tt
  sort_by-All Q (x ∷ xs) h = insert_by-All Q x (sort_by cmp xs) h.0 (sort_by-All Q xs h.1)

  pub insert_by-perm : (x : A) (ys : List A) → Perm (insert_by cmp x ys) (x ∷ ys)
  unfolding insert_by
  insert_by-perm x [] = Perm.refl (x ∷ [])
  insert_by-perm x (y ∷ ys) = elim (Ordering-cases (cmp y x)) [
    | inl l ↦ rw (l, insert_by) (Perm.trans (Perm.cons y (insert_by-perm x ys)) (Perm.swap x y ys))
    | inr (inl e) ↦ rw (e, insert_by) (Perm.refl (x ∷ y ∷ ys))
    | inr (inr g) ↦ rw (g, insert_by) (Perm.refl (x ∷ y ∷ ys))
  ]

  -- Sorting keeps every element, as often as it was there.
  pub sort_by-perm : (xs : List A) → Perm (sort_by cmp xs) xs
  unfolding sort_by
  sort_by-perm [] = Perm.refl []
  sort_by-perm (x ∷ xs) =
      Perm.trans (insert_by-perm x (sort_by cmp xs)) (Perm.cons x (sort_by-perm xs))

-- The ranks do not fall along the list.
abbrev pub IsSorted {ℓ} : {A : Type ℓ} → (A → ℕ) → List A → Type 0
IsSorted rank [] = Unit
IsSorted rank (x ∷ xs) = All (λ y. rank x ≤ rank y) xs × IsSorted rank xs

-- On the elements of `P` the comparison is that of the ranks.
abbrev pub Agrees {ℓ} : {A : Type ℓ} → (A → A → Ordering) → (A → ℕ) → (A → Type 0) → Type ℓ
Agrees {A} cmp rank P =
    (x y : A) → P x → P y → (cmp x y ≡ lt → rank x ≤ rank y) × (cmp x y ≢ lt → rank y ≤ rank x)

All-le_trans {ℓ} :
    {A : Type ℓ} (rank : A → ℕ) (n m : ℕ) (ys : List A)
    → n ≤ m
    → All (λ y. m ≤ rank y) ys
    → All (λ y. n ≤ rank y) ys
All-le_trans rank n m [] h a = tt
All-le_trans rank n m (y ∷ ys) h a = (omega arith, All-le_trans rank n m ys h a.1)

module _ {ℓ} {A : Type ℓ} (cmp : A → A → Ordering) (rank : A → ℕ) (P : A → Type 0)
    (agrees : Agrees cmp rank P) where
  pub insert_by-IsSorted :
      (x : A) (ys : List A) → P x → All P ys → IsSorted rank ys → IsSorted rank (insert_by cmp x ys)
  unfolding insert_by
  insert_by-IsSorted x [] p h s = (tt, tt)
  insert_by-IsSorted x (y ∷ ys) p h s = elim (Ordering-cases (cmp y x)) [
    | inl l ↦
        rw (l, insert_by)
          (
            insert_by-All cmp (λ z. rank y ≤ rank z) x ys (omega (arith, (agrees y x h.0 p).0 l))
                s.0,
            insert_by-IsSorted x ys p h.1 s.1,
          )
    | inr (inl e) ↦ rw (e, insert_by) (before (λ b. cc), s)
    | inr (inr g) ↦ rw (g, insert_by) (before (λ b. cc), s)
  ]
    where
      before : cmp y x ≢ lt → All (λ z. rank x ≤ rank z) (y ∷ ys)
      before ne =
          let le = (agrees y x h.0 p).1 ne in (le, All-le_trans rank (rank x) (rank y) ys le s.0)

  pub sort_by-IsSorted : (xs : List A) → All P xs → IsSorted rank (sort_by cmp xs)
  unfolding sort_by
  sort_by-IsSorted [] h = tt
  sort_by-IsSorted (x ∷ xs) h =
      insert_by-IsSorted x (sort_by cmp xs) h.0 (sort_by-All cmp P xs h.1) (sort_by-IsSorted xs h.1)

-- In a sorted list whatever is cut off is not below what is kept.
abbrev pub KeepsNearest {ℓ} : {A : Type ℓ} → (A → ℕ) → ℕ → List A → Type 0
KeepsNearest rank k xs = All (λ x. All (λ y. rank x ≤ rank y) (drop k xs)) (take k xs)

All-drop {ℓ} : {A : Type ℓ} (Q : A → Type 0) (n : ℕ) (xs : List A) → All Q xs → All Q (drop n xs)
All-drop Q zero xs h = h
All-drop Q (suc n) [] h = tt
All-drop Q (suc n) (x ∷ xs) h = All-drop Q n xs h.1

pub IsSorted-KeepsNearest {ℓ} :
    {A : Type ℓ} (rank : A → ℕ) (k : ℕ) (xs : List A) → IsSorted rank xs → KeepsNearest rank k xs
IsSorted-KeepsNearest rank zero xs s = tt
IsSorted-KeepsNearest rank (suc k) [] s = tt
IsSorted-KeepsNearest rank (suc k) (x ∷ xs) s =
    (All-drop (λ y. rank x ≤ rank y) k xs s.0, IsSorted-KeepsNearest rank k xs s.1)

pub IsSorted-take {ℓ} :
    {A : Type ℓ} (r : A → ℕ) (k : ℕ) (xs : List A) → IsSorted r xs → IsSorted r (take k xs)
IsSorted-take r zero xs s = tt
IsSorted-take r (suc k) [] s = tt
IsSorted-take r (suc k) (x ∷ xs) s = (All-take (λ y. r x ≤ r y) k xs s.0, IsSorted-take r k xs s.1)

length-insert_by {ℓ} :
    {A : Type ℓ} (cmp : A → A → Ordering) (x : A) (xs : List A)
    → length (insert_by cmp x xs) ≡ suc (length xs)
unfolding insert_by
length-insert_by cmp x [] = refl
length-insert_by cmp x (y ∷ ys) = ground (arith, length-insert_by cmp x ys)

length-sort_by {ℓ} :
    {A : Type ℓ} (cmp : A → A → Ordering) (xs : List A) → length (sort_by cmp xs) ≡ length xs
unfolding sort_by
length-sort_by cmp [] = refl
length-sort_by cmp (x ∷ xs) =
    length-insert_by cmp x (sort_by cmp xs) ∙ ap (λ (n : ℕ). suc n) (length-sort_by cmp xs)

-- `kept` are the `k` of `all` with the lowest ranks, in their order, or all of them if there are fewer.
pub record IsNearest {A : Type 0} (rank : A → ℕ) (k : ℕ) (all kept : List A) : Type 0 where
  pub ordered : IsSorted rank kept
  pub count : length kept ≡ min k (length all)
  pub left : List A
  pub parts : Perm (kept ++ left) all
  pub nearest : All (λ x. All (λ y. rank x ≤ rank y) left) kept

-- Sorting and cutting takes the nearest.
pub take-sort_by-IsNearest :
    {A : Type 0} (cmp : A → A → Ordering) (rank : A → ℕ) (Q : A → Type 0)
    → Agrees cmp rank Q
    → (k : ℕ) (xs : List A) → All Q xs
    → IsNearest rank k xs (take k (sort_by cmp xs))
take-sort_by-IsNearest cmp rank Q agrees k xs h =
    let sorted = sort_by cmp xs in
    let ordered = sort_by-IsSorted cmp rank Q agrees xs h in
    record {
      ordered = IsSorted-take rank k sorted ordered;
      count = omega (arith, length-take k sorted, length-sort_by cmp xs);
      left = drop k sorted;
      parts = rw (take-append-drop k sorted) (sort_by-perm cmp xs);
      nearest = IsSorted-KeepsNearest rank k sorted ordered;
    }
