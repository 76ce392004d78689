-- ===== src/Server/Body/Grains.antt =====
-- server/src/bin/grainstored.rs: the grains that a body holds, and their values.
use Prim.Native.String.{String}
use grainstore.Base.{
  ℕ, suc, ◌^◌, ◌<◌, ◌≡◌, refl, subst, ◌⊎◌, List, [], ◌∷◌, All, Option, none, some, arith,
  Option-cases, Bool-cases, inl, inr,
}
use grainstore.Base.Panic.{bind_some}
use grainstore.Model.{bytes}
use grainstore.Server.{GrainRec, encode_val, decode_val}
use grainstore.Server.Body.{
  as_u8, unwrap_or, ok_or, grain_from_value, parse_items, parse_value, parse_lines, parse_grains,
  in_line, not_empty, needs_sid_and_text,
}
use grainstore.Server.Json.{
  Attempt, got, refused, ◌>>=◌, Json, HasBounds, u64_of, i64_of, str_of, array_of,
}
use grainstore.Server.Layout.{decode_val-encode_val}
use grainstore.Server.Words.{lines}

pub Attempt-cases {ℓ} :
    {A : Type ℓ} (r : Attempt A) → ((a : A) × (r ≡ got a)) ⊎ ((m : List ℕ) × (r ≡ refused m))
Attempt-cases (got a) = inl (a, refl)
Attempt-cases (refused m) = inr (m, refl)

pub line_cases : (t : List ℕ) → (t ≡ []) ⊎ ((c : ℕ) × (cs : List ℕ) × (t ≡ c ∷ cs))
line_cases [] = inl refl
line_cases (c ∷ cs) = inr (c, cs, refl)

bind_got {ℓ κ} :
    {A : Type ℓ} {B : Type κ} (m : Attempt A) (k : A → Attempt B) (b : B)
    → (m >>= k) ≡ got b
    → (a : A) × (m ≡ got a) × (k a ≡ got b)
bind_got (got a) k b h = (a, refl, h)
bind_got (refused m) k b h = absurd (cc)

ok_or-got {ℓ} : {A : Type ℓ} (m : List ℕ) (o : Option A) (a : A) → ok_or m o ≡ got a → o ≡ some a
ok_or-got m none a h = absurd (cc)
ok_or-got m (some x) a h = cc

module _ (j : Json) (b : HasBounds j) (lossy : List ℕ → List ℕ)
    (valid : (v : j.Value) (text : List ℕ) → j.as_str v ≡ some text → lossy text ≡ text) where
  -- A grain that fits its fields, and whose value is read back.
  abbrev pub IsStored : GrainRec → Type 0
  IsStored g =
      (g.sid < 2 ^ 64)
      × (g.category < 2 ^ 8)
      × (g.amount < 2 ^ 64)
      × (decode_val lossy (bytes (encode_val g.category g.amount g.text))
          ≡ record { category = g.category; amount = g.amount; text = g.text })

  amount_bound : (o : Option ℕ) → ((n : ℕ) → o ≡ some n → n < 2 ^ 64) → unwrap_or 0 o < 2 ^ 64
  amount_bound none h = omega arith
  amount_bound (some n) h = h n refl

  i64_of_bound : (v : j.Value) (key : String) (n : ℕ) → i64_of j v key ≡ some n → n < 2 ^ 64
  unfolding i64_of
  i64_of_bound v key n h =
      let (x, there, read) = bind_some (j.get v key) j.as_i64 n h in b.as_i64-lt x n read

  grain_from_value-IsStored :
      (v : j.Value) (g : GrainRec) → grain_from_value j v ≡ some g → IsStored g
  unfolding grain_from_value u64_of str_of
  grain_from_value-IsStored v g e =
      let (sid, es, rest) = bind_some (u64_of j v "sid") _ g e in
      let (text, et, same) = bind_some (str_of j v "text") _ g rest in
      let (sv, _, sr) = bind_some (j.get v "sid") j.as_u64 sid es in
      let (tv, _, tr) = bind_some (j.get v "text") j.as_str text et in
      let cat = as_u8 (unwrap_or 0 (u64_of j v "category")) in
      let amount = unwrap_or 0 (i64_of j v "amount") in
      let small = amount_bound (i64_of j v "amount") (i64_of_bound v "amount") in
      let grain : GrainRec = record { sid = sid; category = cat; amount = amount; text = text } in
      let is_grain : (grain ≡ g) = cc in
      subst IsStored is_grain (
        b.as_u64-lt sv sid sr,
        omega arith,
        small,
        decode_val-encode_val lossy cat amount text small (valid tv text tr),
      )

  parse_items-IsStored :
      (items : List j.Value) (gs : List GrainRec) → parse_items j items ≡ got gs → All IsStored gs
  unfolding parse_items
  parse_items-IsStored [] gs e = let none_left : ([] ≡ gs) = cc in subst (All IsStored) none_left tt
  parse_items-IsStored (item ∷ items) gs e =
      let (g, one, rest) = bind_got (ok_or needs_sid_and_text (grain_from_value j item)) _ gs e in
      let (more, others, same) = bind_got (parse_items j items) _ gs rest in
      let all : (g ∷ more ≡ gs) = cc in
      subst (All IsStored) all (
        grain_from_value-IsStored item g (ok_or-got needs_sid_and_text _ g one),
        parse_items-IsStored items more others,
      )

  parse_value-IsStored :
      (v : j.Value) (gs : List GrainRec) → parse_value j v ≡ got gs → All IsStored gs
  unfolding parse_value
  parse_value-IsStored v gs e = elim (Option-cases (j.as_array v)) [
    | inr (items, is_array) ↦ parse_items-IsStored items gs (rw (is_array, parse_value) at e)
    | inl no_array ↦ elim (Bool-cases (j.is_object v)) [
      | inl object ↦ elim (Option-cases (array_of j v "grains")) [
        | inr (items, held) ↦
            parse_items-IsStored items gs (rw (no_array, object, held, parse_value) at e)
        | inl single ↦
            parse_items-IsStored (v ∷ []) gs (rw (no_array, object, single, parse_value) at e)
      ]
      | inr scalar ↦
          let never : (refused _ ≡ got gs) = rw (no_array, scalar, parse_value) at e in absurd (cc)
    ]
  ]

  module _ (trim : List ℕ → List ℕ) where
    parse_lines-IsStored :
        (i : ℕ) (ls : List (List ℕ)) (gs : List GrainRec)
        → parse_lines j trim i ls ≡ got gs
        → All IsStored gs
    unfolding parse_lines
    parse_lines-IsStored i [] gs e =
        let none_left : ([] ≡ gs) = cc in subst (All IsStored) none_left tt
    parse_lines-IsStored i (l ∷ ls) gs e = elim (line_cases (trim l)) [
      | inl blank ↦ parse_lines-IsStored (suc i) ls gs (rw (blank, parse_lines) at e)
      | inr (c, cs, filled) ↦
          let (v, read, rest) =
            bind_got (in_line j i (j.from_str (c ∷ cs))) _ gs (rw (filled, parse_lines) at e) in
          let (g, one, after) =
            bind_got (ok_or needs_sid_and_text (grain_from_value j v)) _ gs rest in
          let (more, others, same) = bind_got (parse_lines j trim (suc i) ls) _ gs after in
          let all : (g ∷ more ≡ gs) = cc in
          subst (All IsStored) all (
            grain_from_value-IsStored v g (ok_or-got needs_sid_and_text _ g one),
            parse_lines-IsStored (suc i) ls more others,
          )
    ]

    not_empty-got : (gs hs : List GrainRec) → not_empty j gs ≡ got hs → gs ≡ hs
    unfolding not_empty
    not_empty-got [] hs e = absurd (cc)
    not_empty-got (g ∷ gs) hs e = cc

    -- Where the numbers that JSON yields fit their types, and the conversion from UTF-8 leaves its texts as
    -- they are: of a body that is accepted, an array, an object or lines, each grain has a sid of 64 bits, a
    -- category of 8 and an amount of 64, and the value that is stored for it decodes to it.
    pub parse_grains-IsStored :
        (body : List ℕ) (gs : List GrainRec) → parse_grains j trim body ≡ got gs → All IsStored gs
    unfolding parse_grains
    parse_grains-IsStored body gs e = elim (Attempt-cases (j.from_str body)) [
      | inl (v, read) ↦ parse_value-IsStored v gs (rw (read, parse_grains) at e)
      | inr (m, not_json) ↦
          let (hs, from_lines, filled) =
            bind_got (parse_lines j trim 0 (lines body)) (not_empty j) gs
              (rw (not_json, parse_grains) at e) in
          parse_lines-IsStored 0 (lines body) gs (
            subst (λ (l : List GrainRec). parse_lines j trim 0 (lines body) ≡ got l)
              (not_empty-got hs gs filled) from_lines)
    ]
