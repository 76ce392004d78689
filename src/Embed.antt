-- ===== src/Embed.antt =====
-- src/embed.rs: the embedder interface, and the one that reads a vector from the value's bytes. An
-- `f32` is its bit pattern.
pub mod RoundTrip
use grainstore.Base.{
  ℕ, zero, suc, ◌+◌, ◌*◌, List, [], ◌∷◌, ◌++◌, Option, none, some, length, drop, ◌==◌,
  if◌then◌else◌,
}
use grainstore.Bytes.{le_bytes, from_le_bytes}

-- The trait `Embedder`.
pub record Embedder : Type 0 where
  pub embed : List ℕ → Option (List ℕ)
  pub dim : ℕ

pub record RawVectorEmbedder : Type 0 where
  pub dim : ℕ
  pub header : ℕ

-- `chunks_exact(4)`, each chunk read as a little-endian `f32`; an incomplete last chunk is left out.
unfoldable pub read_chunks : List ℕ → List ℕ
read_chunks (a ∷ b ∷ c ∷ d ∷ rest) = from_le_bytes (a ∷ b ∷ c ∷ d ∷ []) ∷ read_chunks rest
read_chunks _ = []

unfoldable pub embed : RawVectorEmbedder → List ℕ → Option (List ℕ)
unfolding read_chunks
embed e value =
    if length value == e.header + e.dim * 4 then some (read_chunks (drop e.header value)) else none

-- The implementation of the trait.
unfoldable pub raw_vector : RawVectorEmbedder → Embedder
unfolding embed
raw_vector e = record { embed = embed e; dim = e.dim }

encode_vector : List ℕ → List ℕ
encode_vector [] = []
encode_vector (x ∷ xs) = le_bytes 4 x ++ encode_vector xs

unfoldable pub encode_value_with_header : List ℕ → List ℕ → List ℕ
unfolding encode_vector
encode_value_with_header header vec = header ++ encode_vector vec
