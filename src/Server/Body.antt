-- ===== src/Server/Body.antt =====
-- server/src/bin/grainstored.rs: parse_grains, the grains of a body. serde_json is the interface `Json`,
-- and `trim` is a parameter.
pub mod Grains
use grainstore.Base.{ℕ, suc, ◌%◌, ◌^◌, List, [], ◌∷◌, ◌++◌, Option, none, some, if◌then◌else◌}
use grainstore.Base.Panic
use grainstore.Server.{GrainRec}
use grainstore.Server.Json.{Attempt, got, refused, ◌>>=◌, Json, u64_of, i64_of, str_of, array_of}
use grainstore.Base.Codes.{codes}
use grainstore.Server.Words.{lines, decimal}

-- `o.unwrap_or(d)`
abbrev pub unwrap_or : ℕ → Option ℕ → ℕ
unwrap_or d none = d
unwrap_or d (some n) = n

-- `c as u8`
abbrev pub as_u8 : ℕ → ℕ
as_u8 c = c % 2 ^ 8

abbrev pub needs_sid_and_text : List ℕ
needs_sid_and_text = codes "each grain needs sid and text"

-- `o.ok_or(message)`
abbrev pub ok_or {ℓ} : {A : Type ℓ} → List ℕ → Option A → Attempt A
ok_or m none = refused m
ok_or m (some a) = got a

module _ (j : Json) where
  unfoldable pub grain_from_value : j.Value → Option GrainRec
  grain_from_value v = Panic.◌>>=◌ (u64_of j v "sid") λ sid. Panic.◌>>=◌ (str_of j v "text") λ text.
      some (record {
        sid = sid;
        category = as_u8 (unwrap_or 0 (u64_of j v "category"));
        amount = unwrap_or 0 (i64_of j v "amount");
        text = text;
      })

  unfoldable pub parse_items : List j.Value → Attempt (List GrainRec)
  unfolding grain_from_value
  parse_items [] = got []
  parse_items (item ∷ items) = do
    grain ← ok_or needs_sid_and_text (grain_from_value item)
    grains ← parse_items items
    got (grain ∷ grains)

  -- A whole body that is one JSON value.
  unfoldable pub parse_value : j.Value → Attempt (List GrainRec)
  unfolding parse_items
  parse_value v = elim (j.as_array v) [
    | some items ↦ parse_items items
    | none ↦
        if j.is_object v
        then elim (array_of j v "grains") [
          | some items ↦ parse_items items
          | none ↦ parse_items (v ∷ [])
        ]
        else refused (codes "expected a JSON object/array or NDJSON")
  ]

  unfoldable pub in_line : {A : Type 0} → ℕ → Attempt A → Attempt A
  in_line i (got a) = got a
  in_line i (refused e) = refused (codes "line " ++ (decimal i ++ (codes ": " ++ e)))

  unfoldable pub not_empty : List GrainRec → Attempt (List GrainRec)
  not_empty [] = refused (codes "no grains parsed")
  not_empty (g ∷ gs) = got (g ∷ gs)

  module _ (trim : List ℕ → List ℕ) where
    unfoldable pub parse_lines : ℕ → List (List ℕ) → Attempt (List GrainRec)
    unfolding grain_from_value in_line
    parse_lines i [] = got []
    parse_lines i (line ∷ rest) = elim (trim line) [
      | [] ↦ parse_lines (suc i) rest
      | b ∷ bs ↦ do
        v ← in_line i (j.from_str (b ∷ bs))
        grain ← ok_or needs_sid_and_text (grain_from_value v)
        grains ← parse_lines (suc i) rest
        got (grain ∷ grains)
    ]

    unfoldable pub parse_grains : List ℕ → Attempt (List GrainRec)
    unfolding parse_value parse_lines not_empty
    parse_grains body = elim (j.from_str body) [
      | got v ↦ parse_value v
      | refused _ ↦ parse_lines 0 (lines body) >>= not_empty
    ]
