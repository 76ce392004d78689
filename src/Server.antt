-- ===== src/Server.antt =====
-- server/src/lib.rs: the store of the server, over the engine. A text is its bytes; an `i64` is its
-- two's complement in 64 bits. `String::from_utf8_lossy` and the arithmetic of `f32` are parameters, as
-- is the index.
pub mod Text
pub mod Layout
pub mod Answers
pub mod Total
pub mod Repeated
pub mod Json
pub mod Body
pub mod Daemon
pub mod Client
pub mod Agent
pub mod Words
use Prim.Native.Nat.{bit_xor}
use grainstore.Base.{
  ℕ, zero, suc, ◌+◌, ◌-◌, ◌*◌, ◌/◌, ◌%◌, ◌^◌, max, List, [], ◌∷◌, ◌++◌, Option, none, some, Bool,
  true, false, ltb, leb, ◌==◌, ◌&&◌, if◌then◌else◌, length, map, drop,
}
use grainstore.Base.Panic
use grainstore.Bytes.{be_bytes, from_be_bytes}
use grainstore.Engine.{
  EngineConfig, config, with_header, with_workers, WriteMeta, GrainEngine, open_with, put_raw,
  rebuild_index_from_truth,
}
use grainstore.Engine
use grainstore.Error.{Result, ok, err, ◌>>=◌}
use grainstore.Embed.{Embedder}
use grainstore.Float.{Float32}
use grainstore.Model.{Sid, Grain, Val, bytes, tombstone}
use grainstore.Query.{MixedQuery, Ranked}
use grainstore.Recovery.{FileRead}
use grainstore.Vector.{VectorIndex}
use grainstore.Wal.{slice}
use grainstore.Wal.Commit.{WriteEnd}
use Text.{embed_text}

abbrev pub pred : ℕ
pred = 0

abbrev pub text_offset : ℕ
text_offset = 9

-- The values of `i64` in order.
abbrev pub signed_rank : ℕ → ℕ
signed_rank x = if ltb x (2 ^ 63) then 2 ^ 63 + x else x - 2 ^ 63

-- `a >= b` on `i64`
abbrev pub at_least : ℕ → ℕ → Bool
at_least a b = leb (signed_rank b) (signed_rank a)

unfoldable pub encode_val : ℕ → ℕ → List ℕ → List ℕ
encode_val cat amount text = cat ∷ (be_bytes 8 amount ++ text)

pub record Decoded : Type 0 where
  pub category : ℕ
  pub amount : ℕ
  pub text : List ℕ

-- A grain as supplied by a client.
pub record GrainRec : Type 0 where
  pub sid : ℕ
  pub category : ℕ
  pub amount : ℕ
  pub text : List ℕ

pub record QueryHit : Type 0 where
  pub sid : ℕ
  pub category : ℕ
  pub amount : ℕ
  pub text : List ℕ
  pub distance : ℕ

module _ (lossy : List ℕ → List ℕ) where
  unfoldable pub decode_val : Val → Decoded
  decode_val tombstone = record { category = 0; amount = 0; text = [] }
  decode_val (bytes []) = record { category = 0; amount = 0; text = [] }
  decode_val (bytes (b ∷ rest)) =
      if ltb (length (b ∷ rest)) text_offset
      then record { category = 0; amount = 0; text = [] }
      else record {
        category = b;
        amount = from_be_bytes (slice 1 8 (b ∷ rest));
        text = lossy (drop text_offset (b ∷ rest));
      }

  -- The predicate of a query.
  unfoldable pub matches : Option ℕ → Option ℕ → Option ℕ → Grain → Bool
  unfolding decode_val
  matches category min_amount max_amount g =
      let d = decode_val g.val in
      elim category [ none ↦ true | some w ↦ d.category == w ]
      && elim min_amount [ none ↦ true | some lo ↦ at_least d.amount lo ]
      && elim max_amount [ none ↦ true | some hi ↦ at_least hi d.amount ]

  unfoldable pub hit_of : Ranked → QueryHit
  unfolding decode_val
  hit_of r =
      let d = decode_val r.grain.val in
      record {
        sid = r.grain.sid % 2 ^ 64;
        category = d.category;
        amount = d.amount;
        text = d.text;
        distance = r.dist;
      }

-- TextHashEmbedder; a panic of `embed_text` is one of the embedder.
unfoldable pub embed : Float32 → ℕ → List ℕ → Option (Option (List ℕ))
embed f dim value =
    let embedded : Option (Option (List ℕ)) = elim (embed_text f (drop text_offset value) dim) [
      | none ↦ none
      | some v ↦ some (some v)
    ] in
    if leb (length value) text_offset then some none else embedded

module _ (v : VectorIndex) where
  pub record Store : Type 0 where
    pub engine : GrainEngine v
    pub last_seq : ℕ
    pub dim : ℕ

  unfoldable pub indexed : Store → ℕ
  indexed s = v.len s.engine.index

  -- Store::open, with what reading the log gave, on an empty index; the embedder is given.
  unfoldable pub open_server : Embedder → FileRead → v.Index → ℕ → Result (Option (Store × ℕ))
  open_server e read index dim = do
    opened ← open_with v read index
    elim opened [
      | none ↦ ok none
      | some engine ↦ do
        rebuilt ← rebuild_index_from_truth v engine e
        ok (some (record { engine = rebuilt.0; last_seq = 0; dim = dim }, rebuilt.1))
    ]

  -- The loop of `load` with `max_seq`; each write has its end. It stops at the first that fails.
  unfoldable pub load_loop :
      GrainEngine v → ℕ → List (GrainRec × WriteEnd) → GrainEngine v × Result ℕ
  load_loop e max_seq [] = (e, ok max_seq)
  load_loop e max_seq ((r, end) ∷ recs) =
      let put =
        put_raw v e r.sid pred (encode_val r.category r.amount r.text)
          (record { c = 0x3f800000; t_valid = 0; idem_key = r.sid }) end in
      elim (put.1) [
        | err reason ↦ (put.0, err reason)
        | ok h ↦ load_loop (put.0) (max max_seq h) recs
      ]

  unfoldable pub loaded : Store → ℕ → GrainEngine v × Result ℕ → Store × Result ℕ
  loaded s n (e, err reason) = (record s { engine = e }, err reason)
  loaded s n (e, ok max_seq) = (record s { engine = e; last_seq = max s.last_seq max_seq }, ok n)

  -- Store::load; the wait for the index at the end, which may time out, changes nothing here.
  unfoldable pub load : Store → List (GrainRec × WriteEnd) → Store × Result ℕ
  unfolding load_loop loaded
  load s recs = loaded s (length recs) (load_loop s.engine s.last_seq recs)

  module _ (f : Float32) (lossy : List ℕ → List ℕ) where
    unfoldable pub hits_of : Result (List Ranked) → Result (List QueryHit)
    unfolding hit_of
    hits_of found = do ranked ← found; ok (map (hit_of lossy) ranked)

    -- Store::query; a panic of `embed_text` or of the search is `none`.
    unfoldable pub query :
        Store → List ℕ → Option ℕ → Option ℕ → Option ℕ → ℕ → Option (Result (List QueryHit))
    unfolding hits_of
    query s text category min_amount max_amount k = elim (embed_text f text s.dim) [
      | none ↦ none
      | some qvec ↦
          Panic.◌>>=◌
            (Engine.query v s.engine
              (record { pred = pred; query = qvec; k = k; ef = 128; over_fetch = 64 })
              (matches lossy category min_amount max_amount))
            λ found. some (hits_of found)
    ]
