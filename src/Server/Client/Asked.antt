-- ===== src/Server/Client/Asked.antt =====
-- server/src/bin/grainstore.rs: what the flags of a query ask.
use Prim.Native.String.{String}
use grainstore.Base.{
  ℕ, ◌^◌, ◌<◌, ◌≡◌, refl, List, [], ◌∷◌, Option, none, some, true, Option-cases, inl, inr, arith,
}
use grainstore.Server.Client.{Flag, flag_of, put_u64, put_i64, with_flag, flag_loop, first_body}
use grainstore.Server.Body.{unwrap_or}
use grainstore.Server.Json.{Json, HasFields, u64_of, i64_of, str_of}
use grainstore.Server.Words.{parse_u64, parse_i64}
use grainstore.Server.Words.Bounds.{parse_u64-lt, parse_i64-lt}

-- The restrictions of a query.
pub record Asked : Type 0 where
  pub category : Option ℕ
  pub min_amount : Option ℕ
  pub max_amount : Option ℕ
  pub k : ℕ

abbrev pub nothing_asked : Asked
nothing_asked = record { category = none; min_amount = none; max_amount = none; k = 5 }

-- `b` where it is there, `a` otherwise.
abbrev later : Option ℕ → Option ℕ → Option ℕ
later a none = a
later a (some n) = some n

ask_flag : Asked → Flag → List ℕ → Asked
ask_flag q Flag.category value = record q { category = later q.category (parse_u64 value) }
ask_flag q Flag.min_amount value = record q { min_amount = later q.min_amount (parse_i64 value) }
ask_flag q Flag.max_amount value = record q { max_amount = later q.max_amount (parse_i64 value) }
ask_flag q Flag.k value = record q { k = unwrap_or q.k (parse_u64 value) }

-- What flags ask: each takes the word after it, and counts if that is a number; the last one holds.
unfoldable pub asked : Asked → List (List ℕ) → Asked
unfolding ask_flag flag_of
asked q [] = q
asked q (flag ∷ []) = q
asked q (flag ∷ value ∷ flags) = elim (flag_of flag) [
  | some known ↦ asked (ask_flag q known value) flags
  | none ↦ asked q (value ∷ flags)
]

module _ (j : Json) (laws : HasFields j) where
  -- The body of a query, read as the server reads it.
  pub record Asks (text : List ℕ) (q : Asked) (body : j.Value) : Type 0 where
    pub object : j.is_object body ≡ true
    pub text_there : str_of j body "text" ≡ some text
    pub category_there : u64_of j body "category" ≡ q.category
    pub min_there : i64_of j body "min_amount" ≡ q.min_amount
    pub max_there : i64_of j body "max_amount" ≡ q.max_amount
    pub k_there : u64_of j body "k" ≡ some q.k

  pub first_body-Asks : (text : List ℕ) → Asks text nothing_asked (first_body j text)
  unfolding first_body u64_of i64_of str_of
  first_body-Asks text =
      let b1 = j.insert j.empty "text" (j.of_str text) in
      let o1 = laws.is_object-insert j.empty "text" (j.of_str text) laws.is_object-empty in
      let g1 =
        λ (key : String). laws.get-insert j.empty "text" key (j.of_str text) laws.is_object-empty in
      let g2 = λ (key : String). laws.get-insert b1 "k" key (j.of_u64 5) o1 in
      record {
        object = laws.is_object-insert b1 "k" (j.of_u64 5) o1;
        text_there = rw (g2 "text", g1 "text", laws.as_str-of_str text) refl;
        category_there = rw (g2 "category", g1 "category", laws.get-empty "category") refl;
        min_there = rw (g2 "min_amount", g1 "min_amount", laws.get-empty "min_amount") refl;
        max_there = rw (g2 "max_amount", g1 "max_amount", laws.get-empty "max_amount") refl;
        k_there = rw (g2 "k", laws.as_u64-of_u64 5 (omega arith)) refl;
      }

  module _ (text : List ℕ) (q : Asked) (body : j.Value) (a : Asks text q body) where
    category-Asks :
        (o : Option ℕ)
        → ((n : ℕ) → o ≡ some n → n < 2 ^ 64)
        → Asks text (record q { category = later q.category o }) (put_u64 j body "category" o)
    unfolding put_u64 u64_of i64_of str_of
    category-Asks none fits = a
    category-Asks (some n) fits =
        let g = λ (key : String). laws.get-insert body "category" key (j.of_u64 n) a.object in
        record {
          object = laws.is_object-insert body "category" (j.of_u64 n) a.object;
          text_there = rw (g "text") a.text_there;
          category_there = rw (g "category", laws.as_u64-of_u64 n (fits n refl)) refl;
          min_there = rw (g "min_amount") a.min_there;
          max_there = rw (g "max_amount") a.max_there;
          k_there = rw (g "k") a.k_there;
        }

    min_amount-Asks :
        (o : Option ℕ)
        → ((n : ℕ) → o ≡ some n → n < 2 ^ 64)
        → Asks text (record q { min_amount = later q.min_amount o }) (put_i64 j body "min_amount" o)
    unfolding put_i64 u64_of i64_of str_of
    min_amount-Asks none fits = a
    min_amount-Asks (some n) fits =
        let g = λ (key : String). laws.get-insert body "min_amount" key (j.of_i64 n) a.object in
        record {
          object = laws.is_object-insert body "min_amount" (j.of_i64 n) a.object;
          text_there = rw (g "text") a.text_there;
          category_there = rw (g "category") a.category_there;
          min_there = rw (g "min_amount", laws.as_i64-of_i64 n (fits n refl)) refl;
          max_there = rw (g "max_amount") a.max_there;
          k_there = rw (g "k") a.k_there;
        }

    max_amount-Asks :
        (o : Option ℕ)
        → ((n : ℕ) → o ≡ some n → n < 2 ^ 64)
        → Asks text (record q { max_amount = later q.max_amount o }) (put_i64 j body "max_amount" o)
    unfolding put_i64 u64_of i64_of str_of
    max_amount-Asks none fits = a
    max_amount-Asks (some n) fits =
        let g = λ (key : String). laws.get-insert body "max_amount" key (j.of_i64 n) a.object in
        record {
          object = laws.is_object-insert body "max_amount" (j.of_i64 n) a.object;
          text_there = rw (g "text") a.text_there;
          category_there = rw (g "category") a.category_there;
          min_there = rw (g "min_amount") a.min_there;
          max_there = rw (g "max_amount", laws.as_i64-of_i64 n (fits n refl)) refl;
          k_there = rw (g "k") a.k_there;
        }

    k-Asks :
        (o : Option ℕ)
        → ((n : ℕ) → o ≡ some n → n < 2 ^ 64)
        → Asks text (record q { k = unwrap_or q.k o }) (put_u64 j body "k" o)
    unfolding put_u64 u64_of i64_of str_of
    k-Asks none fits = a
    k-Asks (some n) fits =
        let g = λ (key : String). laws.get-insert body "k" key (j.of_u64 n) a.object in
        record {
          object = laws.is_object-insert body "k" (j.of_u64 n) a.object;
          text_there = rw (g "text") a.text_there;
          category_there = rw (g "category") a.category_there;
          min_there = rw (g "min_amount") a.min_there;
          max_there = rw (g "max_amount") a.max_there;
          k_there = rw (g "k", laws.as_u64-of_u64 n (fits n refl)) refl;
        }

    with_flag-Asks :
        (flag : Flag) (value : List ℕ)
        → Asks text (ask_flag q flag value) (with_flag j body flag value)
    unfolding with_flag ask_flag
    with_flag-Asks Flag.category value = category-Asks (parse_u64 value) (parse_u64-lt value)
    with_flag-Asks Flag.min_amount value = min_amount-Asks (parse_i64 value) (parse_i64-lt value)
    with_flag-Asks Flag.max_amount value = max_amount-Asks (parse_i64 value) (parse_i64-lt value)
    with_flag-Asks Flag.k value = k-Asks (parse_u64 value) (parse_u64-lt value)

  pub flag_loop-Asks :
      (flags : List (List ℕ)) (text : List ℕ) (q : Asked) (body : j.Value)
      → Asks text q body
      → Asks text (asked q flags) (flag_loop j body flags)
  unfolding flag_loop asked
  flag_loop-Asks [] text q body a = a
  flag_loop-Asks (flag ∷ []) text q body a = a
  flag_loop-Asks (flag ∷ value ∷ flags) text q body a = elim (Option-cases (flag_of flag)) [
    | inl unknown ↦ rw (unknown, flag_loop, asked) (flag_loop-Asks (value ∷ flags) text q body a)
    | inr (known, e) ↦
        rw (e, flag_loop, asked)
          (flag_loop-Asks flags text (ask_flag q known value) (with_flag j body known value)
            (with_flag-Asks text q body a known value))
  ]
