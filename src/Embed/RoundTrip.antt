-- ===== src/Embed/RoundTrip.antt =====
-- A vector that was encoded behind a header is embedded as itself.
use grainstore.Base.{
  ℕ, ◌*◌, ◌≡◌, refl, ap, ◌∙◌, List, [], ◌∷◌, ◌++◌, some, length, All, arith, length-append,
  drop-append_length,
}
use grainstore.Bytes.{le_bytes, from_le_bytes}
use grainstore.Bytes.RoundTrip.{from_le_bytes-le_bytes, length-le_bytes}
use grainstore.Embed.{
  RawVectorEmbedder, read_chunks, embed, encode_vector, encode_value_with_header,
}
use grainstore.Model.{IsU32}

length-encode_vector : (vec : List ℕ) → length (encode_vector vec) ≡ length vec * 4
unfolding encode_vector
length-encode_vector [] = omega arith
length-encode_vector (x ∷ xs) = omega (
  arith,
  length-append (le_bytes 4 x) (encode_vector xs),
  length-le_bytes 4 x,
  length-encode_vector xs,
)

read_chunks-encode_vector : (vec : List ℕ) → All IsU32 vec → read_chunks (encode_vector vec) ≡ vec
unfolding encode_vector
read_chunks-encode_vector [] h = unfold read_chunks in refl
read_chunks-encode_vector (x ∷ xs) h =
    read_four (le_bytes 4 x) (encode_vector xs) (length-le_bytes 4 x) ∙ λ i.
    from_le_bytes-le_bytes 4 x h.0 i ∷ read_chunks-encode_vector xs h.1 i
  where
    read_four :
        (w rest : List ℕ)
        → length w ≡ 4
        → read_chunks (w ++ rest) ≡ from_le_bytes w ∷ read_chunks rest
    read_four [] rest e = absurd (omega arith)
    read_four (a ∷ []) rest e = absurd (omega arith)
    read_four (a ∷ b ∷ []) rest e = absurd (omega arith)
    read_four (a ∷ b ∷ c ∷ []) rest e = absurd (omega arith)
    read_four (a ∷ b ∷ c ∷ d ∷ []) rest e = unfold read_chunks in refl
    read_four (a ∷ b ∷ c ∷ d ∷ f ∷ w) rest e = absurd (omega arith)

-- With a header and a vector of the embedder's lengths the vector comes back bit for bit. The
-- coordinates are 32-bit patterns.
pub embed-encode_value_with_header :
    (e : RawVectorEmbedder) (header vec : List ℕ)
    → length header ≡ e.header
    → length vec ≡ e.dim
    → All IsU32 vec
    → embed e (encode_value_with_header header vec) ≡ some vec
unfolding embed encode_value_with_header
embed-encode_value_with_header e header vec hh hv fits =
    rw
      (
        drop-append_length e.header header (encode_vector vec) hh,
        read_chunks-encode_vector vec fits,
      )
      (ground (
        arith,
        length-append header (encode_vector vec),
        length-encode_vector vec,
        ap (λ (n : ℕ). n * 4) hv,
      ))
