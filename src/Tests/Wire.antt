-- ===== src/Tests/Wire.antt =====
-- A small JSON library, on which the theorems on the programs of the server are applied.
use Prim.Native.String.{String}
use package.text.Mathlib.Text.{◌==◌ as str_eq}
use grainstore.Base.{
  ℕ, ◌^◌, ◌<◌, ◌≡◌, refl, List, [], ◌∷◌, ◌++◌, Option, none, some, Bool, true, false, ltb,
  if◌then◌else◌, length, arith, Bool-cases, inl, inr,
}
use grainstore.Server.Json.{Attempt, got, refused, Json, HasBounds, HasFields}
use grainstore.Base.Codes.{codes}
use grainstore.Server.Words.{same_bytes}

mutual
  pub data Value : Type 0 where
    nothing : Value
    flag : Bool → Value
    number : ℕ → Value
    below_zero : ℕ → Value
    real : ℕ → Value
    word : List ℕ → Value
    items : Values → Value
    fields : Fields → Value

  pub data Values : Type 0 where
    end : Values
    item : Value → Values → Values

  pub data Fields : Type 0 where
    done : Fields
    field : String → Value → Fields → Fields

unfoldable pub list_of : Values → List Value
list_of end = []
list_of (item v vs) = v ∷ list_of vs

unfoldable pub values_of : List Value → Values
values_of [] = end
values_of (v ∷ vs) = item v (values_of vs)

unfoldable pub find : Fields → String → Option Value
find done key = none
find (field k v fs) key = if str_eq k key then some v else find fs key

unfoldable pub get_field : Value → String → Option Value
unfolding find
get_field (fields fs) key = find fs key
get_field _ key = none

unfoldable pub put_field : Value → String → Value → Value
put_field (fields fs) key v = fields (field key v fs)
put_field other key v = other

unfoldable pub in_range : ℕ → ℕ → Option ℕ
in_range bound n = if ltb n bound then some n else none

unfoldable pub to_u64 : Value → Option ℕ
unfolding in_range
to_u64 (number n) = in_range (2 ^ 64) n
to_u64 _ = none

unfoldable pub to_i64 : Value → Option ℕ
unfolding in_range
to_i64 (number n) = in_range (2 ^ 63) n
to_i64 (below_zero n) = in_range (2 ^ 64) n
to_i64 _ = none

unfoldable pub to_str : Value → Option (List ℕ)
to_str (word t) = some t
to_str _ = none

unfoldable pub to_list : Value → Option (List Value)
unfolding list_of
to_list (items vs) = some (list_of vs)
to_list _ = none

unfoldable pub is_map : Value → Bool
is_map (fields fs) = true
is_map _ = false

abbrev pub signed : ℕ → Value
signed n = if ltb n (2 ^ 63) then number n else below_zero n

-- A text for each value: a mark, and what it holds.
unfoldable mutual
  pub print : Value → List ℕ
  print nothing = 0 ∷ []
  print (flag b) = 1 ∷ (if b then 1 else 0) ∷ []
  print (number n) = 2 ∷ n ∷ []
  print (below_zero n) = 3 ∷ n ∷ []
  print (real n) = 4 ∷ n ∷ []
  print (word t) = 5 ∷ length t ∷ t
  print (items vs) = 6 ∷ print_values vs
  print (fields fs) = 7 ∷ print_fields fs

  pub print_values : Values → List ℕ
  print_values end = 0 ∷ []
  print_values (item v vs) = 1 ∷ (print v ++ print_values vs)

  pub print_fields : Fields → List ℕ
  print_fields done = 0 ∷ []
  print_fields (field k v fs) = 1 ∷ length (codes k) ∷ (codes k ++ (print v ++ print_fields fs))

-- The texts of some values are read.
unfoldable pub read : List Value → List ℕ → Attempt Value
unfolding same_bytes print
read [] t = refused []
read (v ∷ vs) t = if same_bytes t (print v) then got v else read vs t

abbrev pub json : List Value → Json
json known = record {
  Value = Value;
  from_str = read known;
  to_string = print;
  get = get_field;
  as_array = to_list;
  is_object = is_map;
  as_u64 = to_u64;
  as_i64 = to_i64;
  as_str = to_str;
  null = nothing;
  empty = fields done;
  insert = put_field;
  of_u64 = number;
  of_i64 = signed;
  of_f32 = real;
  of_str = word;
  of_bool = flag;
  array = λ vs. items (values_of vs);
}

to_u64-lt : (v : Value) (n : ℕ) → to_u64 v ≡ some n → n < 2 ^ 64
unfolding to_u64
to_u64-lt v n e = ground (arith, e)

to_i64-lt : (v : Value) (n : ℕ) → to_i64 v ≡ some n → n < 2 ^ 64
unfolding to_i64
to_i64-lt v n e = ground (arith, e)

pub json-HasBounds : (known : List Value) → HasBounds (json known)
json-HasBounds known = record { as_u64-lt = to_u64-lt; as_i64-lt = to_i64-lt }

get-insert :
    (v : Value) (key other : String) (x : Value)
    → is_map v ≡ true
    → get_field (put_field v key x) other ≡ (if str_eq key other then some x else get_field v other)
unfolding is_map get_field put_field find
get-insert (fields fs) key other x m = refl
get-insert nothing key other x m = absurd (cc)
get-insert (flag b) key other x m = absurd (cc)
get-insert (number n) key other x m = absurd (cc)
get-insert (below_zero n) key other x m = absurd (cc)
get-insert (real n) key other x m = absurd (cc)
get-insert (word t) key other x m = absurd (cc)
get-insert (items vs) key other x m = absurd (cc)

is_map-put :
    (v : Value) (key : String) (x : Value) → is_map v ≡ true → is_map (put_field v key x) ≡ true
unfolding is_map put_field
is_map-put (fields fs) key x m = refl
is_map-put nothing key x m = m
is_map-put (flag b) key x m = m
is_map-put (number n) key x m = m
is_map-put (below_zero n) key x m = m
is_map-put (real n) key x m = m
is_map-put (word t) key x m = m
is_map-put (items vs) key x m = m

to_u64-number : (n : ℕ) → n < 2 ^ 64 → to_u64 (number n) ≡ some n
unfolding to_u64
to_u64-number n h = ground arith

to_i64-signed : (n : ℕ) → n < 2 ^ 64 → to_i64 (signed n) ≡ some n
unfolding to_i64
to_i64-signed n h = elim (Bool-cases (ltb n (2 ^ 63))) [
  | inl small ↦ rw (small, to_i64, in_range, small)
  | inr large ↦
      let fits : (ltb n (2 ^ 64) ≡ true) = ground arith in rw (large, to_i64, in_range, fits)
]

pub json-HasFields : (known : List Value) → HasFields (json known)
unfolding get_field find is_map to_str
json-HasFields known = record {
  get-empty = λ key. refl;
  get-insert = get-insert;
  is_object-empty = refl;
  is_object-insert = is_map-put;
  as_str-of_str = λ t. refl;
  as_u64-of_u64 = to_u64-number;
  as_i64-of_i64 = to_i64-signed;
}
