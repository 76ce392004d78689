-- ===== src/Server/Daemon.antt =====
-- server/src/bin/grainstored.rs: the handler of a request, and the loop of a worker.
-- serde_json is the interface `Json`; `trim`, the message of an error and the conversion from UTF-8 are
-- parameters. The header of a response is always that of JSON, and is left out.
pub mod Effect
pub mod Total
pub mod Stored
use grainstore.Base.{
  ℕ, suc, ◌+◌, ◌%◌, ◌^◌, List, [], ◌∷◌, ◌++◌, Option, none, some, Bool, true, false, ◌&&◌,
  if◌then◌else◌, map,
}
use grainstore.Base.Panic
use grainstore.Error.{Error, Result, ok, err}
use grainstore.Float.{Float32}
use grainstore.Server
use grainstore.Server.{GrainRec, QueryHit, Store, indexed, load}
use grainstore.Server.Body.{as_u8, unwrap_or, parse_grains}
use grainstore.Server.Json.{Attempt, got, refused, ◌>>=◌, Json, u64_of, i64_of, str_of, array_of}
use grainstore.Base.Codes.{codes}
use grainstore.Server.Words.{same_bytes, is_text, up_to, lines, decimal}
use grainstore.Vector.{VectorIndex}
use grainstore.Wal.Commit.{WriteEnd}

abbrev pub category_of : Option ℕ → Option ℕ
category_of none = none
category_of (some c) = some (as_u8 c)

-- tiny_http's methods, of which the handler tells two from the others.
pub data Method : Type 0 where
  get post other : Method

abbrev pub is_get : Method → Bool
is_get get = true
is_get _ = false

abbrev pub is_post : Method → Bool
is_post post = true
is_post _ = false

-- A request; `none` is a body that cannot be read.
pub record Request : Type 0 where
  pub method : Method
  pub url : List ℕ
  pub body : Option (List ℕ)

pub record Response : Type 0 where
  pub status : ℕ
  pub body : List ℕ

-- The arms of the handler's `match`.
pub data Route : Type 0 where
  get_health get_stats on_grains on_query not_found : Route

unfoldable pub route : Request → Route
unfolding up_to same_bytes
route rq =
    let path = up_to b'?' rq.url in
    if is_get rq.method && is_text path "/health"
    then get_health
    else if is_get rq.method && is_text path "/stats"
    then get_stats
    else if is_post rq.method && is_text path "/grains"
    then on_grains
    else if is_post rq.method && is_text path "/query"
    then on_query
    else not_found

-- Each record with the end that its write has.
unfoldable pub with_ends : (ℕ → WriteEnd) → ℕ → List GrainRec → List (GrainRec × WriteEnd)
with_ends ends i [] = []
with_ends ends i (r ∷ recs) = (r, ends i) ∷ with_ends ends (suc i) recs

module _ (j : Json) where
  -- `json!({"sid": .., "category": .., "amount": .., "text": .., "distance": ..})`
  unfoldable pub hit_value : QueryHit → j.Value
  hit_value h =
      let sid = j.insert j.empty "sid" (j.of_u64 h.sid) in
      let category = j.insert sid "category" (j.of_u64 h.category) in
      let amount = j.insert category "amount" (j.of_i64 h.amount) in
      let text = j.insert amount "text" (j.of_str h.text) in
      j.insert text "distance" (j.of_f32 h.distance)

  unfoldable pub matches_value : List QueryHit → j.Value
  unfolding hit_value
  matches_value hits = j.insert j.empty "matches" (j.array (map hit_value hits))

  abbrev pub json_resp : ℕ → j.Value → Response
  json_resp status body = record { status = status; body = j.to_string body }

  unfoldable pub error_resp : ℕ → List ℕ → Response
  error_resp status message = json_resp status (j.insert j.empty "error" (j.of_str message))

  module _ (trim : List ℕ → List ℕ) (message : Error → List ℕ) (v : VectorIndex) (f : Float32)
      (lossy : List ℕ → List ℕ) where
    -- What the materializer does to the index while `load` waits for it.
    abbrev pub settled : (v.Index → v.Index) → Store v → Store v
    settled settle s = record s { engine = record (s.engine) { index = settle (s.engine.index) } }

    unfoldable pub load_reply : (v.Index → v.Index) → Store v × Result ℕ → Store v × Response
    unfolding error_resp
    load_reply settle (s, ok n) =
        let counted = j.insert j.empty "loaded" (j.of_u64 n) in
        (
          settled settle s,
          json_resp 200 (j.insert counted "indexed" (j.of_u64 (indexed v (settled settle s)))),
        )
    load_reply settle (s, err e) = (s, error_resp 500 (message e))

    unfoldable pub load_parsed :
        Store v
        → (ℕ → WriteEnd)
        → (v.Index → v.Index)
        → Attempt (List GrainRec)
        → Store v × Response
    unfolding load_reply with_ends error_resp
    load_parsed s ends settle (got recs) = load_reply settle (load v s (with_ends ends 0 recs))
    load_parsed s ends settle (refused m) = (s, error_resp 400 m)

    unfoldable pub post_grains :
        Store v → (ℕ → WriteEnd) → (v.Index → v.Index) → Option (List ℕ) → Store v × Response
    unfolding load_parsed parse_grains error_resp
    post_grains s ends settle none = (s, error_resp 400 (codes "bad body"))
    post_grains s ends settle (some body) = load_parsed s ends settle (parse_grains j trim body)

    unfoldable pub query_reply : Result (List QueryHit) → Response
    unfolding matches_value error_resp
    query_reply (ok hits) = json_resp 200 (matches_value hits)
    query_reply (err e) = error_resp 500 (message e)

    -- The query that an object asks; a panic is `none`.
    unfoldable pub ask : Store v → j.Value → List ℕ → Option (Result (List QueryHit))
    ask s o text =
        Server.query v f lossy s text (category_of (u64_of j o "category"))
          (i64_of j o "min_amount") (i64_of j o "max_amount") (unwrap_or 5 (u64_of j o "k"))

    unfoldable pub query_value : Store v → j.Value → Option Response
    unfolding ask query_reply error_resp
    query_value s o = elim (str_of j o "text") [
      | none ↦ some (error_resp 400 (codes "missing 'text'"))
      | some text ↦ Panic.◌>>=◌ (ask s o text) λ answer. some (query_reply answer)
    ]

    unfoldable pub post_query : Store v → Option (List ℕ) → Option Response
    unfolding query_value error_resp
    post_query s none = some (error_resp 400 (codes "bad body"))
    post_query s (some body) = elim (j.from_str body) [
      | got o ↦ query_value s o
      | refused e ↦ some (error_resp 400 e)
    ]

    unfoldable pub health : Store v → Response
    health s =
        let status = j.insert j.empty "status" (j.of_str (codes "ok")) in
        json_resp 200 (j.insert status "indexed" (j.of_u64 (indexed v s)))

    unfoldable pub stats : Store v → j.Value
    stats s =
        let held = j.insert j.empty "indexed" (j.of_u64 (indexed v s)) in
        j.insert held "dim" (j.of_u64 s.dim)

    unfoldable pub respond :
        Store v
        → (ℕ → WriteEnd)
        → (v.Index → v.Index)
        → Option (List ℕ)
        → Route
        → Option (Store v × Response)
    unfolding health stats post_grains post_query error_resp
    respond s ends settle body get_health = some (s, health s)
    respond s ends settle body get_stats = some (s, json_resp 200 (stats s))
    respond s ends settle body on_grains = some (post_grains s ends settle body)
    respond s ends settle body on_query =
        Panic.◌>>=◌ (post_query s body) λ response. some (s, response)
    respond s ends settle body not_found = some (s, error_resp 404 (codes "not found"))

    -- The store and the response, or none for a panic.
    unfoldable pub handle :
        Store v → (ℕ → WriteEnd) → (v.Index → v.Index) → Request → Option (Store v × Response)
    unfolding respond route
    handle s ends settle rq = respond s ends settle rq.body (route rq)

    -- The loop of a worker: requests that it gets, with what their writes and the index come to.
    unfoldable pub serve :
        Store v
        → List ((ℕ → WriteEnd) × (v.Index → v.Index) × Request)
        → Option (Store v × List Response)
    unfolding handle
    serve s [] = some (s, [])
    serve s ((ends, settle, rq) ∷ rest) =
        Panic.◌>>=◌ (handle s ends settle rq)
          λ one. Panic.◌>>=◌ (serve (one.0) rest) λ more. some (more.0, one.1 ∷ more.1)
