-- ===== src/Server/Text.antt =====
-- server/src/lib.rs: the embedding of a text by the hashes of its n-grams of 1 to 3 bytes.
use Prim.Native.Nat.{bit_xor}
use grainstore.Base.{
  ℕ, zero, suc, ◌+◌, ◌-◌, ◌*◌, ◌/◌, ◌%◌, ◌^◌, List, Option, none, some, foldl, ltb, ◌==◌,
  if◌then◌else◌, length, map, take, drop, replicate, get_or, set,
}
use grainstore.Base.Panic.{◌>>=◌}
use grainstore.Float.{Float32, max32}

unfoldable pub fnv1a : List ℕ → ℕ
fnv1a bytes = foldl (λ h b. bit_xor h b * 0x100000001b3 % 2 ^ 64) 0xcbf29ce484222325 bytes

module _ (f : Float32) where
  -- `v[idx] += sign`; 1.0 and -1.0 have the bit patterns 0x3f800000 and 0xbf800000.
  unfoldable pub add_sign : List ℕ → ℕ → ℕ → List ℕ
  add_sign v idx h =
      set v idx (f.add (get_or 0 v idx) (if h / 2 ^ 63 % 2 == 0 then 0x3f800000 else 0xbf800000))

  -- Without a dimension the remainder panics.
  unfoldable pub add_gram : List ℕ → ℕ → List ℕ → Option (List ℕ)
  unfolding fnv1a add_sign
  add_gram v dim gram =
      let h = fnv1a gram in if dim == 0 then none else some (add_sign v (h % dim) h)

  -- The loop over the `left` positions of the windows of `w` bytes.
  unfoldable pub add_windows : ℕ → ℕ → ℕ → List ℕ → List ℕ → Option (List ℕ)
  unfolding add_gram
  add_windows dim w zero text v = some v
  add_windows dim w (suc left) text v = do
    next ← add_gram v dim (take w text)
    add_windows dim w left (drop 1 text) next

  -- The windows of `w` bytes of a text of `n`.
  unfoldable pub add_size : ℕ → List ℕ → ℕ → List ℕ → Option (List ℕ)
  unfolding add_windows
  add_size dim text w v =
      let n = length text in if ltb n w then some v else add_windows dim w (n - w + 1) text v

  -- 1e-6 has the bit pattern 0x358637bd.
  unfoldable pub normalised : List ℕ → List ℕ
  normalised v =
      let norm = max32 (f.sqrt (f.sum (map (λ x. f.mul x x) v))) 0x358637bd in
      map (λ x. f.div x norm) v

  unfoldable pub embed_text : List ℕ → ℕ → Option (List ℕ)
  unfolding add_size normalised
  embed_text text dim = do
    one ← add_size dim text 1 (replicate dim 0)
    two ← add_size dim text 2 one
    three ← add_size dim text 3 two
    some (normalised three)
