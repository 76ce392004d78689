-- ===== src/Server/Client.antt =====
-- server/src/bin/grainstore.rs: the client of the command line, from its arguments to the calls it makes.
-- What is printed is not modelled, and ureq, which makes the calls, is not called here.
pub mod Asked
pub mod Arrival
pub mod Commands
use Prim.Native.String.{String}
use grainstore.Base.{
  ℕ, zero, suc, ◌+◌, List, [], ◌∷◌, ◌++◌, Option, none, some, Bool, true, false, ltb, ◌==◌, ◌||◌,
  if◌then◌else◌, get_elem?, length, take, drop,
}
use grainstore.Server.Json.{Json}
use grainstore.Base.Codes.{codes}
use grainstore.Server.Words.{same_bytes, is_text, parse_u64, parse_i64}

-- `xs.iter().position(p)`
unfoldable pub position : (List ℕ → Bool) → List (List ℕ) → Option ℕ
position p [] = none
position p (x ∷ xs) =
    let later : Option ℕ = elim (position p xs) [ none ↦ none | some i ↦ some (suc i) ] in
    if p x then some 0 else later

unfoldable pub position_or_length : (List ℕ → Bool) → List (List ℕ) → ℕ
unfolding position
position_or_length p xs = elim (position p xs) [ none ↦ length xs | some i ↦ i ]

-- The address of the server, and the arguments that are left; `variable` is GS_SERVER.
unfoldable pub server_url : Option (List ℕ) → List (List ℕ) → List ℕ × List (List ℕ)
unfolding position same_bytes
server_url variable args =
    let default : List ℕ = elim variable [
      | some url ↦ url
      | none ↦ codes "http://localhost:7700"
    ] in
    elim (position (λ a. is_text a "--server") args) [
      | none ↦ (default, args)
      | some i ↦ elim (get_elem? args (i + 1)) [
        | some url ↦ (url, take i args ++ drop (i + 2) args)
        | none ↦ (default, args)
      ]
    ]

pub data Flag : Type 0 where
  category min_amount max_amount k : Flag

unfoldable pub flag_of : List ℕ → Option Flag
unfolding same_bytes
flag_of flag =
    if is_text flag "--category" || is_text flag "-c"
    then some Flag.category
    else if is_text flag "--min"
    then some Flag.min_amount
    else if is_text flag "--max"
    then some Flag.max_amount
    else if is_text flag "-k"
    then some Flag.k
    else none

-- A call of the server, a GET or a POST of a body.
pub data Call : Type 0 where
  fetch : List ℕ → Call
  send : List ℕ → List ℕ → Call

-- What the arguments come to.
pub data Action : Type 0 where
  start_repl stop skip usage unknown : Action
  calls : Call → Action
  load_file : List ℕ → Action

-- `words.join(" ")`
unfoldable pub join : List (List ℕ) → List ℕ
join [] = []
join (w ∷ []) = w
join (w ∷ x ∷ ws) = w ++ (32 ∷ join (x ∷ ws))

unfoldable pub is_flag : List ℕ → Bool
is_flag [] = false
is_flag (b ∷ bs) = b == b'-'

module _ (j : Json) where
  unfoldable pub put_u64 : j.Value → String → Option ℕ → j.Value
  put_u64 body key none = body
  put_u64 body key (some n) = j.insert body key (j.of_u64 n)

  unfoldable pub put_i64 : j.Value → String → Option ℕ → j.Value
  put_i64 body key none = body
  put_i64 body key (some n) = j.insert body key (j.of_i64 n)

  unfoldable pub with_flag : j.Value → Flag → List ℕ → j.Value
  unfolding put_u64 put_i64 parse_u64 parse_i64
  with_flag body category value = put_u64 body "category" (parse_u64 value)
  with_flag body min_amount value = put_i64 body "min_amount" (parse_i64 value)
  with_flag body max_amount value = put_i64 body "max_amount" (parse_i64 value)
  with_flag body k value = put_u64 body "k" (parse_u64 value)

  -- The loop over the flags. A flag at the end has no value.
  unfoldable pub flag_loop : j.Value → List (List ℕ) → j.Value
  unfolding with_flag flag_of
  flag_loop body [] = body
  flag_loop body (flag ∷ []) = body
  flag_loop body (flag ∷ value ∷ flags) = elim (flag_of flag) [
    | some known ↦ flag_loop (with_flag body known value) flags
    | none ↦ flag_loop body (value ∷ flags)
  ]

  -- The body before the flags.
  unfoldable pub first_body : List ℕ → j.Value
  first_body text = j.insert (j.insert j.empty "text" (j.of_str text)) "k" (j.of_u64 5)

  unfoldable pub do_query : List ℕ → List ℕ → List (List ℕ) → Call
  unfolding flag_loop first_body
  do_query server text flags =
      send (server ++ codes "/query") (j.to_string (flag_loop (first_body text) flags))

  -- `none` is a file that cannot be read.
  unfoldable pub do_load : List ℕ → Option (List ℕ) → Option Call
  do_load server none = none
  do_load server (some body) = some (send (server ++ codes "/grains") body)

  unfoldable pub query_words : List ℕ → List (List ℕ) → Action
  unfolding position_or_length join do_query is_flag
  query_words server rest =
      let split = position_or_length is_flag rest in
      elim (join (take split rest)) [
        | [] ↦ usage
        | b ∷ bs ↦ calls (do_query server (b ∷ bs) (drop split rest))
      ]

  unfoldable pub load_words : List (List ℕ) → Action
  load_words [] = usage
  load_words (file ∷ rest) = load_file file

  -- What `main` does with the arguments that are left.
  unfoldable pub command : List ℕ → List (List ℕ) → Action
  unfolding load_words query_words same_bytes
  command server [] = start_repl
  command server (word ∷ rest) =
      if is_text word "stats"
      then calls (fetch (server ++ codes "/stats"))
      else if is_text word "health"
      then calls (fetch (server ++ codes "/health"))
      else if is_text word "load"
      then load_words rest
      else if is_text word "query"
      then query_words server rest
      else if is_text word "repl"
      then start_repl
      else unknown

  -- What `repl` does with the words of a line.
  unfoldable pub repl_command : List ℕ → List (List ℕ) → Action
  unfolding load_words query_words same_bytes
  repl_command server [] = skip
  repl_command server (word ∷ rest) =
      if is_text word "\\q"
        || (is_text word "\\quit" || (is_text word "exit" || is_text word "quit"))
      then stop
      else if is_text word "stats"
      then calls (fetch (server ++ codes "/stats"))
      else if is_text word "load"
      then load_words rest
      else if is_text word "query"
      then query_words server rest
      else unknown
