-- ===== src/Wal/Fields.antt =====
-- Reading the fixed-width fields of an encoding one after the other.
use grainstore.Base.{
  ℕ, zero, suc, ◌+◌, ◌^◌, ◌<◌, ◌≡◌, refl, sym, ap, ◌∙◌, List, [], ◌∷◌, ◌++◌, take, drop, arith,
  take-append_length, drop-append_length,
}
use grainstore.Bytes.{be_bytes, from_be_bytes}
use grainstore.Bytes.RoundTrip.{length-be_bytes, from_be_bytes-be_bytes}
use grainstore.Wal.{slice}

module _ {ℓ} {A : Type ℓ} where
  drop-nil : (n : ℕ) → drop {A = A} n [] ≡ []
  drop-nil zero = refl
  drop-nil (suc n) = refl

  pub drop-drop : (n k : ℕ) (xs : List A) → drop k (drop n xs) ≡ drop (n + k) xs
  drop-drop zero k xs = ap (λ m. drop m xs) {x = k} {y = zero + k} (omega arith)
  drop-drop (suc n) k [] = drop-nil k ∙ sym (drop-nil (suc n + k))
  drop-drop (suc n) k (x ∷ xs) =
      drop-drop n k xs ∙ ap (λ m. drop m (x ∷ xs)) {x = suc (n + k)} {y = suc n + k} (omega arith)

module _ (n w v : ℕ) (bytes rest : List ℕ) (at : drop n bytes ≡ be_bytes w v ++ rest) where
  -- Behind a field stands what follows it.
  pub drop_field : drop (n + w) bytes ≡ rest
  drop_field =
      sym (drop-drop n w bytes)
      ∙ ap (drop w) at
      ∙ drop-append_length w (be_bytes w v) rest (length-be_bytes w v)

  -- A field that fits its width is read back.
  pub read_field : v < 256 ^ w → from_be_bytes (slice n w bytes) ≡ v
  read_field h =
      ap (λ xs. from_be_bytes (take w xs)) at
      ∙ ap from_be_bytes (take-append_length w (be_bytes w v) rest (length-be_bytes w v))
      ∙ from_be_bytes-be_bytes w v h
