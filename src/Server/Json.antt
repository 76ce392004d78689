-- ===== src/Server/Json.antt =====
-- serde_json, which the programs of server/src/bin/ call: an interface, with the behaviour that is
-- documented and relied on. A text is its bytes, an `i64` its two's complement, an `f32` its bits.
use Prim.Native.String.{String}
use text.Mathlib.Text.{◌==◌}
use grainstore.Base.{ℕ, ◌^◌, ◌<◌, ◌≡◌, List, Option, none, some, Bool, true, if◌then◌else◌}
use grainstore.Base.Panic

-- `Result<A, String>`
pub data Attempt {ℓ} (A : Type ℓ) : Type ℓ where
  got : A → Attempt A
  refused : List ℕ → Attempt A

infixl 5 ◌>>=◌
abbrev pub ◌>>=◌ {ℓ κ} : {A : Type ℓ} {B : Type κ} → Attempt A → (A → Attempt B) → Attempt B
got a >>= f = f a
refused m >>= f = refused m

-- `of_u64`, `of_i64`, `of_f32`, `of_str`, `of_bool` and `array` are what `json!` makes of a value, `empty`
-- is `json!({})`, and `insert v key item` is `v` with `v[key] = item`.
pub record Json : Type 1 where
  pub Value : Type 0
  pub from_str : List ℕ → Attempt Value
  pub to_string : Value → List ℕ
  pub get : Value → String → Option Value
  pub as_array : Value → Option (List Value)
  pub is_object : Value → Bool
  pub as_u64 : Value → Option ℕ
  pub as_i64 : Value → Option ℕ
  pub as_str : Value → Option (List ℕ)
  pub null : Value
  pub empty : Value
  pub insert : Value → String → Value → Value
  pub of_u64 : ℕ → Value
  pub of_i64 : ℕ → Value
  pub of_f32 : ℕ → Value
  pub of_str : List ℕ → Value
  pub of_bool : Bool → Value
  pub array : List Value → Value

module _ (j : Json) where
  -- `v.get(key).and_then(|x| x.as_u64())`
  unfoldable pub u64_of : j.Value → String → Option ℕ
  u64_of v key = Panic.◌>>=◌ (j.get v key) j.as_u64

  unfoldable pub i64_of : j.Value → String → Option ℕ
  i64_of v key = Panic.◌>>=◌ (j.get v key) j.as_i64

  unfoldable pub str_of : j.Value → String → Option (List ℕ)
  str_of v key = Panic.◌>>=◌ (j.get v key) j.as_str

  unfoldable pub array_of : j.Value → String → Option (List j.Value)
  array_of v key = Panic.◌>>=◌ (j.get v key) j.as_array

  -- What a number and a text that are read have: they fit their types.
  pub record HasBounds : Type 0 where
    pub as_u64-lt : (v : j.Value) (n : ℕ) → j.as_u64 v ≡ some n → n < 2 ^ 64
    pub as_i64-lt : (v : j.Value) (n : ℕ) → j.as_i64 v ≡ some n → n < 2 ^ 64

  -- An object is a map, and a number or a text is read back from the value that is made of it.
  pub record HasFields : Type 0 where
    pub get-empty : (key : String) → j.get j.empty key ≡ none
    pub get-insert :
        (v : j.Value) (key other : String) (item : j.Value)
        → j.is_object v ≡ true
        → j.get (j.insert v key item) other ≡ (if key == other then some item else j.get v other)
    pub is_object-empty : j.is_object j.empty ≡ true
    pub is_object-insert :
        (v : j.Value) (key : String) (item : j.Value)
        → j.is_object v ≡ true
        → j.is_object (j.insert v key item) ≡ true
    pub as_str-of_str : (text : List ℕ) → j.as_str (j.of_str text) ≡ some text
    pub as_u64-of_u64 : (n : ℕ) → n < 2 ^ 64 → j.as_u64 (j.of_u64 n) ≡ some n
    pub as_i64-of_i64 : (n : ℕ) → n < 2 ^ 64 → j.as_i64 (j.of_i64 n) ≡ some n
