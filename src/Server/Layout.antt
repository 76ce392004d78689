-- ===== src/Server/Layout.antt =====
-- server/src/lib.rs: the layout of the values, and the embedding of a text.
use grainstore.Base.{
  ℕ, zero, suc, ◌+◌, ◌-◌, ◌%◌, ◌^◌, ◌<◌, ◌≡◌, refl, ap, ◌∙◌, List, [], ◌∷◌, ◌++◌, some, false, ltb,
  ◌==◌, length, length-append, length-set, length-replicate, replicate, map, take, drop,
  take-append_length, drop-append_length, arith, Bool-cases, inl, inr,
}
use grainstore.Bytes.{be_bytes}
use grainstore.Bytes.RoundTrip.{length-be_bytes, from_be_bytes-be_bytes}
use grainstore.Float.{Float32}
use grainstore.Model.{bytes}
use grainstore.Server.{encode_val, decode_val}
use grainstore.Server.Text.{
  fnv1a, add_sign, add_gram, add_windows, add_size, normalised, embed_text,
}

-- A value is read back, for an amount of 64 bits and a text that the conversion from UTF-8 leaves as
-- it is.
pub decode_val-encode_val :
    (lossy : List ℕ → List ℕ) (cat amount : ℕ) (text : List ℕ)
    → amount < 2 ^ 64
    → lossy text ≡ text
    → decode_val lossy (bytes (encode_val cat amount text))
      ≡ record { category = cat; amount = amount; text = text }
unfolding decode_val encode_val
decode_val-encode_val lossy cat amount text fits valid =
    let body = be_bytes 8 amount in
    let size = length-be_bytes 8 amount in
    let long : (ltb (suc (length (body ++ text))) 9 ≡ false) =
      ground (arith, length-append body text, size) in
    rw (
      long,
      take-append_length 8 body text size,
      from_be_bytes-be_bytes 8 amount fits,
      drop-append_length 8 body text size,
      valid,
    )

module _ (f : Float32) where
  add_gram_total :
      (v : List ℕ) (dim : ℕ) (gram : List ℕ)
      → 0 < dim
      → (v' : List ℕ) × (add_gram f v dim gram ≡ some v') × (length v' ≡ length v)
  unfolding add_gram add_sign
  add_gram_total v dim gram some_dim =
      let there : ((dim == 0) ≡ false) = ground arith in
      let h = fnv1a gram in (add_sign f v (h % dim) h, rw there refl, length-set v (h % dim) _)

  add_windows_total :
      (dim w left : ℕ) (text v : List ℕ)
      → 0 < dim
      → (v' : List ℕ) × (add_windows f dim w left text v ≡ some v') × (length v' ≡ length v)
  unfolding add_windows
  add_windows_total dim w zero text v some_dim = (v, refl, refl)
  add_windows_total dim w (suc left) text v some_dim =
      let (a, ea, la) = add_gram_total v dim (take w text) some_dim in
      let (b, eb, lb) = add_windows_total dim w left (drop 1 text) a some_dim in
      (b, rw ea eb, lb ∙ la)

  add_size_total :
      (dim : ℕ) (text : List ℕ) (w : ℕ) (v : List ℕ)
      → 0 < dim
      → (v' : List ℕ) × (add_size f dim text w v ≡ some v') × (length v' ≡ length v)
  unfolding add_size
  add_size_total dim text w v some_dim = elim (Bool-cases (ltb (length text) w)) [
    | inl short ↦ (v, rw short, refl)
    | inr long ↦
        let (v', e, l) = add_windows_total dim w (length text - w + 1) text v some_dim in
        (v', rw long e, l)
  ]

  length-map : (g : ℕ → ℕ) (xs : List ℕ) → length (map g xs) ≡ length xs
  length-map g [] = refl
  length-map g (x ∷ xs) = ap (λ (n : ℕ). suc n) (length-map g xs)

  -- With a dimension every text, also the empty one, has an embedding, and it has that dimension.
  pub embed_text_total :
      (text : List ℕ) (dim : ℕ)
      → 0 < dim
      → (v : List ℕ) × (embed_text f text dim ≡ some v) × (length v ≡ dim)
  unfolding embed_text normalised
  embed_text_total text dim some_dim =
      let (a, ea, la) = add_size_total dim text 1 (replicate dim 0) some_dim in
      let (b, eb, lb) = add_size_total dim text 2 a some_dim in
      let (c, ec, lc) = add_size_total dim text 3 b some_dim in
      (
        normalised f c,
        rw (ea, eb, ec) refl,
        length-map _ c ∙ lc ∙ lb ∙ la ∙ length-replicate {A = ℕ} dim 0,
      )
