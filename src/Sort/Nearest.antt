-- ===== src/Sort/Nearest.antt =====
-- Searches that are put together from parts. The reasoning counts the elements up to each rank.
use mathlib.Core.List.{Perm, foldr, perm_append_comm}
use mathlib.Core.List.Perm
use grainstore.Base.{
  ℕ, suc, ◌+◌, ◌<◌, ◌≤◌, ◌≡◌, List, [], ◌∷◌, ◌++◌, All, All-append, arith, inl, inr, length,
  length-append, min, leb, if◌then◌else◌, refl, ◌∙◌, sym, ap, append_assoc, ◌⊎◌, Bool-cases,
  All-map,
}
use native.Mathlib.Decide.{dec_lt}
use grainstore.Sort.Laws.{IsSorted, IsNearest}

module _ {A : Type 0} (rank : A → ℕ) where
  -- How many elements have a rank of at most `t`.
  pub count_le : ℕ → List A → ℕ
  count_le t [] = 0
  count_le t (x ∷ xs) = if leb (rank x) t then suc (count_le t xs) else count_le t xs

  pub count_le-append :
      (t : ℕ) (xs ys : List A) → count_le t (xs ++ ys) ≡ count_le t xs + count_le t ys
  unfolding count_le
  count_le-append t [] ys = omega arith
  count_le-append t (x ∷ xs) ys = ground (arith, count_le-append t xs ys)

  abbrev counted : ℕ → A → ℕ → ℕ
  counted t x n = if leb (rank x) t then suc n else n

  count_le-foldr : (t : ℕ) (xs : List A) → count_le t xs ≡ foldr (counted t) 0 xs
  unfolding count_le
  count_le-foldr t [] = refl
  count_le-foldr t (x ∷ xs) = ground (arith, count_le-foldr t xs)

  count_le_above : (t n : ℕ) (xs : List A) → t < n → All (λ y. n ≤ rank y) xs → count_le t xs ≡ 0
  unfolding count_le
  count_le_above t n [] lt h = refl
  count_le_above t n (x ∷ xs) lt h = ground (arith, count_le_above t n xs)

  count_le_below :
      (t n : ℕ) (xs : List A) → n ≤ t → All (λ x. rank x ≤ n) xs → count_le t xs ≡ length xs
  unfolding count_le
  count_le_below t n [] le h = refl
  count_le_below t n (x ∷ xs) le h = ground (arith, count_le_below t n xs)

  count_le-le-length : (t : ℕ) (xs : List A) → count_le t xs ≤ length xs
  unfolding count_le
  count_le-le-length t [] = omega arith
  count_le-le-length t (x ∷ xs) = ground (arith, count_le-le-length t xs)

  count_le-perm : (t : ℕ) {xs ys : List A} → Perm xs ys → count_le t xs ≡ count_le t ys
  count_le-perm t {xs} {ys} p =
      count_le-foldr t xs
      ∙ Perm.foldr-eq (hlevel) (counted t) (λ x y n. ground arith) p 0
      ∙ sym (count_le-foldr t ys)

length-foldr {ℓ} : {A : Type ℓ} (xs : List A) → length xs ≡ foldr (λ x n. suc n) 0 xs
length-foldr [] = refl
length-foldr (x ∷ xs) = ap (λ (n : ℕ). suc n) (length-foldr xs)

pub length-perm {ℓ} : {A : Type ℓ} {xs ys : List A} → Perm xs ys → length xs ≡ length ys
length-perm {A} {xs} {ys} p =
    length-foldr xs
    ∙ Perm.foldr-eq (hlevel) (λ (x : A) (n : ℕ). suc n) (λ x y n. refl) p 0
    ∙ sym (length-foldr ys)

module _ {A : Type 0} (rank : A → ℕ) where
  -- An element left that is up to `t` puts all that is kept up to `t`.
  kept_below :
      (t : ℕ) (kept left : List A)
      → All (λ x. All (λ y. rank x ≤ rank y) left) kept
      → (count_le rank t left ≡ 0) ⊎ ((1 ≤ length left) × (count_le rank t kept ≡ length kept))
  unfolding count_le
  kept_below t kept [] h = inl refl
  kept_below t kept (y ∷ ys) h = elim (Bool-cases (leb (rank y) t)) [
    | inl low ↦ inr (omega arith, count_le_below rank t (rank y) kept (ground arith) (heads kept h))
    | inr high ↦ elim (kept_below t kept ys (tails kept h)) [
      | inl none_low ↦ inl (rw high none_low)
      | inr (some_left, all_kept) ↦ inr (omega arith, all_kept)
    ]
  ]
    where
      heads :
          (xs : List A)
          → All (λ x. All (λ z. rank x ≤ rank z) (y ∷ ys)) xs
          → All (λ x. rank x ≤ rank y) xs
      heads [] a = tt
      heads (x ∷ xs) a = (a.0.0, heads xs a.1)

      tails :
          (xs : List A)
          → All (λ x. All (λ z. rank x ≤ rank z) (y ∷ ys)) xs
          → All (λ x. All (λ z. rank x ≤ rank z) ys) xs
      tails [] a = tt
      tails (x ∷ xs) a = (a.0.1, tails xs a.1)

  -- Up to every rank, as many are kept as there are, but at most `k`.
  pub count_le-nearest :
      (k : ℕ) (all kept : List A)
      → IsNearest rank k all kept
      → (t : ℕ) → count_le rank t kept ≡ min k (count_le rank t all)
  count_le-nearest k all kept h t =
      let whole = sym (count_le-perm rank t h.parts) ∙ count_le-append rank t kept h.left in
      let size = sym (length-perm h.parts) ∙ length-append kept h.left in
      let few = count_le-le-length rank t kept in
      elim (kept_below t kept h.left h.nearest) [
        | inl none_low ↦ omega (arith, whole, few, none_low, h.count)
        | inr (some_left, all_kept) ↦ omega (arith, whole, size, some_left, all_kept, h.count)
      ]

  above_some : (xs : List A) → All (λ x. (t : ℕ) → t < rank x → count_le rank t xs < length xs) xs
  unfolding count_le
  above_some [] = tt
  above_some (x ∷ xs) = (
    λ t h. ground (arith, count_le-le-length rank t xs),
    All-map _ _ (λ y g t h. ground (arith, g t h)) xs (above_some xs),
  )

  counts_itself : (xs : List A) → All (λ y. 1 ≤ count_le rank (rank y) xs) xs
  unfolding count_le
  counts_itself [] = tt
  counts_itself (x ∷ xs) =
      (ground arith, All-map _ _ (λ y h. ground (arith, h)) xs (counts_itself xs))

  -- Conversely such counts say that the nearest were kept.
  IsNearest-of_counts :
      (k : ℕ) (all kept left : List A)
      → IsSorted rank kept
      → Perm (kept ++ left) all
      → length kept ≡ min k (length all)
      → ((t : ℕ) → count_le rank t kept ≡ min k (count_le rank t all))
      → IsNearest rank k all kept
  IsNearest-of_counts k all kept left sorted parts size counts = record {
    ordered = sorted;
    count = size;
    left = left;
    parts = parts;
    nearest =
        All-map _ _
          (λ x above.
            All-map _ _ (λ y itself. not_above x above y itself) left (counts_itself left))
          kept (above_some kept);
  }
    where
      not_above :
          (x : A)
          → ((t : ℕ) → t < rank x → count_le rank t kept < length kept)
          → (y : A) → 1 ≤ count_le rank (rank y) left
          → rank x ≤ rank y
      not_above x above y itself = elim (dec_lt (rank y) (rank x)) [
        | no h ↦ omega arith
        | yes h ↦ absurd (
            omega (
              arith,
              above (rank y) h,
              counts (rank y),
              size,
              itself,
              sym (count_le-perm rank (rank y) parts) ∙ count_le-append rank (rank y) kept left,
            ))
      ]

  pub IsNearest-perm :
      (k : ℕ) {all others : List A} (kept : List A)
      → Perm all others
      → IsNearest rank k all kept
      → IsNearest rank k others kept
  IsNearest-perm k kept p h = record {
    ordered = h.ordered;
    count = omega (arith, h.count, length-perm p);
    left = h.left;
    parts = Perm.trans h.parts p;
    nearest = h.nearest;
  }

  -- Elements that are no nearer than the `k` that are kept can be skipped.
  pub IsNearest-skip :
      (k : ℕ) (all kept others : List A)
      → length kept ≡ k
      → All (λ x. All (λ y. rank x ≤ rank y) others) kept
      → IsNearest rank k all kept
      → IsNearest rank k (all ++ others) kept
  IsNearest-skip k all kept others full far h = record {
    ordered = h.ordered;
    count = omega (arith, h.count, length-append all others);
    left = h.left ++ others;
    parts = rw (← append_assoc kept h.left others) (Perm.append_right others h.parts);
    nearest = both kept h.nearest far;
  }
    where
      both :
          (xs : List A)
          → All (λ x. All (λ y. rank x ≤ rank y) h.left) xs
          → All (λ x. All (λ y. rank x ≤ rank y) others) xs
          → All (λ x. All (λ y. rank x ≤ rank y) (h.left ++ others)) xs
      both [] a b = tt
      both (x ∷ xs) a b = (All-append _ h.left others a.0 b.0, both xs a.1 b.1)

  -- The nearest among those kept of one part and all of another are the nearest of both parts.
  pub IsNearest-merge :
      (k : ℕ) (all some_kept others kept : List A)
      → IsNearest rank k all some_kept
      → IsNearest rank k (some_kept ++ others) kept
      → IsNearest rank k (all ++ others) kept
  IsNearest-merge k all some_kept others kept h g =
      IsNearest-of_counts k (all ++ others) kept (g.left ++ h.left) g.ordered parts
        (omega (arith, h.count, g.count, length-append all others, length-append some_kept others))
        (λ t. omega (
          arith,
          count_le-nearest k all some_kept h t,
          count_le-nearest k (some_kept ++ others) kept g t,
          count_le-append rank t all others,
          count_le-append rank t some_kept others,
        ))
    where
      parts : Perm (kept ++ (g.left ++ h.left)) (all ++ others)
      parts = rw (← append_assoc kept g.left h.left) (
          Perm.trans (Perm.append_right h.left g.parts) (
            rw (append_assoc some_kept others h.left) (
              Perm.trans (Perm.append_left some_kept (perm_append_comm others h.left))
                (rw (← append_assoc some_kept h.left others) (Perm.append_right others h.parts)))))
