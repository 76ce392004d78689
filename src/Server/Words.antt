-- ===== src/Server/Words.antt =====
-- Texts as the programs of server/src/bin/ take them apart with the standard library.
pub mod Bounds
use Prim.Native.String.{String}
use grainstore.Base.Codes.{codes}
use grainstore.Base.{
  ℕ, zero, suc, ◌+◌, ◌-◌, ◌*◌, ◌/◌, ◌%◌, ◌^◌, List, [], ◌∷◌, ◌++◌, Option, none, some, Bool, true,
  false, ltb, leb, ◌==◌, ◌&&◌, ◌||◌, if◌then◌else◌,
}

unfoldable pub same_bytes : List ℕ → List ℕ → Bool
same_bytes [] [] = true
same_bytes [] (b ∷ bs) = false
same_bytes (a ∷ as') [] = false
same_bytes (a ∷ as') (b ∷ bs) = a == b && same_bytes as' bs

-- `a == "literal"`
abbrev pub is_text : List ℕ → String → Bool
is_text a literal = same_bytes a (codes literal)

-- `text.split(c).next()`
unfoldable pub up_to : ℕ → List ℕ → List ℕ
up_to c [] = []
up_to c (b ∷ text) = if b == c then [] else b ∷ up_to c text

-- A line without the `\r` at its end.
unfoldable pub chomped : List ℕ → List ℕ
chomped [] = []
chomped (b ∷ []) = if b == 13 then [] else b ∷ []
chomped (b ∷ c ∷ text) = b ∷ chomped (c ∷ text)

-- `str::lines`: an empty line at the end is none.
unfoldable pub lines_from : List ℕ → List ℕ → List (List ℕ)
unfolding chomped
lines_from line [] = line ∷ []
lines_from line (b ∷ []) = if b == 10 then chomped line ∷ [] else (line ++ b ∷ []) ∷ []
lines_from line (b ∷ c ∷ text) = elim (b == 10) [
  | true ↦ chomped line ∷ lines_from [] (c ∷ text)
  | false ↦ lines_from (line ++ b ∷ []) (c ∷ text)
]

unfoldable pub lines : List ℕ → List (List ℕ)
unfolding lines_from
lines [] = []
lines (b ∷ text) = lines_from [] (b ∷ text)

is_digit : ℕ → Bool
is_digit b = leb 48 b && leb b 57

-- The value of the digits after `n`, if all are digits and it is at most `bound`.
digits : ℕ → ℕ → List ℕ → Option ℕ
unfolding is_digit
digits bound n [] = some n
digits bound n (b ∷ text) =
    let next = n * 10 + (b - 48) in
    let rest = digits bound next text in if is_digit b && leb next bound then rest else none

-- The digits of a number, of which there is one at least.
number : ℕ → List ℕ → Option ℕ
unfolding digits
number bound [] = none
number bound (b ∷ text) = digits bound 0 (b ∷ text)

-- `text.parse::<u64>().ok()`
unfoldable pub parse_u64 : List ℕ → Option ℕ
unfolding number
parse_u64 [] = none
parse_u64 (b ∷ text) =
    if b == b'+' then number (2 ^ 64 - 1) text else number (2 ^ 64 - 1) (b ∷ text)

-- The two's complement of the number below zero.
negated : Option ℕ → Option ℕ
negated none = none
negated (some n) = some ((2 ^ 64 - n) % 2 ^ 64)

-- `text.parse::<i64>().ok()`
unfoldable pub parse_i64 : List ℕ → Option ℕ
unfolding number negated
parse_i64 [] = none
parse_i64 (b ∷ text) =
    if b == b'-'
    then negated (number (2 ^ 63) text)
    else if b == b'+'
    then number (2 ^ 63 - 1) text
    else number (2 ^ 63 - 1) (b ∷ text)

-- A `usize` as it is printed; it has 20 digits at most.
printed : ℕ → ℕ → List ℕ → List ℕ
printed zero n tail = tail
printed (suc fuel) n tail =
    let shorter = printed fuel (n / 10) ((48 + n % 10) ∷ tail) in
    if ltb n 10 then (48 + n) ∷ tail else shorter

unfoldable pub decimal : ℕ → List ℕ
unfolding printed
decimal n = printed 20 n []
