-- ===== src/Server/Client/Commands.antt =====
-- server/src/bin/grainstore.rs: the arguments of a query, from the command line to the server.
use grainstore.Base.{
  ℕ, ◌≡◌, refl, List, [], ◌∷◌, ◌++◌, All, none, some, true, false, length, take-append_length,
  drop-append_length, append-nil,
}
use grainstore.Base.Codes.{codes}
use grainstore.Server.Client.{
  Call, calls, flag_loop, first_body, position, position_or_length, is_flag, join, do_query,
  query_words, command,
}
use grainstore.Base.Panic
use grainstore.Error.{Error}
use grainstore.Float.{Float32}
use grainstore.Server
use grainstore.Server.{Store}
use grainstore.Server.Client.Asked.{nothing_asked, asked}
use grainstore.Server.Client.Arrival.{arrives, handle-do_query}
use grainstore.Server.Daemon.{Response, category_of, query_reply, handle}
use grainstore.Server.Json.{Json, HasFields, got}
use grainstore.Vector.{VectorIndex}
use grainstore.Wal.Commit.{WriteEnd}

-- No words, or a flag first.
abbrev pub StartsWithFlag : List (List ℕ) → Type 0
StartsWithFlag [] = Unit
StartsWithFlag (w ∷ ws) = is_flag w ≡ true

abbrev pub NoFlag : List ℕ → Type 0
NoFlag w = is_flag w ≡ false

position-none : (words : List (List ℕ)) → All NoFlag words → position is_flag words ≡ none
unfolding position
position-none [] n = refl
position-none (w ∷ words) n = rw (position, position-none words n.1, n.0)

position_first :
    (words : List (List ℕ)) (flag : List ℕ) (rest : List (List ℕ))
    → All NoFlag words
    → is_flag flag ≡ true
    → position is_flag (words ++ (flag ∷ rest)) ≡ some (length words)
unfolding position
position_first [] flag rest n first = rw (position, first)
position_first (w ∷ words) flag rest n first =
    rw (position, position_first words flag rest n.1 first, n.0)

position_or_length-append :
    (words flags : List (List ℕ))
    → All NoFlag words
    → StartsWithFlag flags
    → position_or_length is_flag (words ++ flags) ≡ length words
unfolding position_or_length
position_or_length-append words [] n s =
    rw (append-nil words) (rw (position_or_length, position-none words n))
position_or_length-append words (flag ∷ rest) n s =
    rw (position_or_length, position_first words flag rest n s)

-- The command line `query` with words that are no flags, then flags, is a query for the words.
pub command-do_query :
    (j : Json) (server : List ℕ) (words flags : List (List ℕ)) (b : ℕ) (text : List ℕ)
    → All NoFlag words
    → StartsWithFlag flags
    → join words ≡ b ∷ text
    → command j server (codes "query" ∷ (words ++ flags))
      ≡ calls (do_query j server (b ∷ text) flags)
unfolding command
command-do_query j server words flags b text n s filled = rw (
  query_words,
  position_or_length-append words flags n s,
  take-append_length (length words) words flags refl,
  filled,
  position_or_length-append words flags n s,
  drop-append_length (length words) words flags refl,
)

module _ (j : Json) (laws : HasFields j) (trim : List ℕ → List ℕ) (message : Error → List ℕ)
    (v : VectorIndex) (f : Float32) (lossy : List ℕ → List ℕ) where
  -- `query`, then words that are no flags, not all of them empty, then flags: the client makes one call,
  -- and where its body is read as what was printed, the response is that of the store's query of the
  -- words, joined by spaces, with the category of the last `--category` or `-c` modulo 256, and the amounts
  -- and the number of hits of the last `--min`, `--max` and `-k`, of those with a number after them; without
  -- a category or an amount none is asked for, and 5 hits without a number of hits.
  pub handle-command :
      (server : List ℕ) (words flags : List (List ℕ)) (b : ℕ) (text : List ℕ) (s : Store v)
      (ends : ℕ → WriteEnd) (settle : v.Index → v.Index)
      → All NoFlag words
      → StartsWithFlag flags
      → join words ≡ b ∷ text
      → j.from_str (j.to_string (flag_loop j (first_body j (b ∷ text)) flags))
        ≡ got (flag_loop j (first_body j (b ∷ text)) flags)
      → let q = asked nothing_asked flags in
        (call : Call) × (command j server (codes "query" ∷ (words ++ flags)) ≡ calls call)
        × (handle j trim message v f lossy s ends settle (arrives server call)
            ≡ Panic.◌>>=◌ {B = Store v × Response}
                (Server.query v f lossy s
                  (b ∷ text)
                  (category_of q.category)
                  q.min_amount
                  q.max_amount
                  q.k)
                (λ answer. some (s, query_reply j trim message v f lossy answer)))
  handle-command server words flags b text s ends settle n starts filled read = (
    do_query j server (b ∷ text) flags,
    command-do_query j server words flags b text n starts filled,
    handle-do_query j laws trim message v f lossy server (b ∷ text) flags s ends settle read,
  )
