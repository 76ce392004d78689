-- ===== src/Server/Daemon/Effect.antt =====
-- server/src/bin/grainstored.rs: what a request does to the store.
use grainstore.Base.{
  ℕ, suc, ◌≡◌, ◌≢◌, refl, ap, ◌∙◌, subst, List, [], ◌∷◌, Option, none, some, length, Bool, true,
  false, Bool-cases, inl, inr,
}
use grainstore.Base.Panic.{◌>>=◌}
use grainstore.Engine.{GrainEngine}
use grainstore.Error.{Error, Result, ok, err}
use grainstore.Float.{Float32}
use grainstore.Server.{GrainRec, Store, load, load_loop, loaded}
use grainstore.Server.Body.{parse_grains}
use grainstore.Server.Daemon.{
  Request, Response, Method, get, post, other, error_resp, Route, get_health, get_stats, on_grains,
  on_query, not_found, route, with_ends, settled, load_reply, load_parsed, post_grains, post_query,
  respond, handle,
}
use grainstore.Server.Json.{Attempt, got, refused, Json}
use grainstore.Server.Words.{up_to, is_text}
use grainstore.Vector.{VectorIndex}
use grainstore.Wal.Commit.{WriteEnd}

-- The grains, if there are any.
unfoldable pub got_grains : Attempt (List GrainRec) → Option (List GrainRec)
got_grains (got recs) = some recs
got_grains (refused m) = none

module _ (j : Json) (trim : List ℕ → List ℕ) (message : Error → List ℕ) (v : VectorIndex)
    (f : Float32) (lossy : List ℕ → List ℕ) where
  read_grains : Option (List ℕ) → Option (List GrainRec)
  unfolding got_grains
  read_grains none = none
  read_grains (some body) = got_grains (parse_grains j trim body)

  posted : Method → Bool → Option (List ℕ) → Option (List GrainRec)
  unfolding read_grains
  posted post true body = read_grains body
  posted post false body = none
  posted get here body = none
  posted other here body = none

  -- The grains that a request brings: it is a POST, its URL up to a question mark is "/grains", and its
  -- body parses.
  unfoldable pub grains_of : Request → Option (List GrainRec)
  unfolding posted
  grains_of rq = posted rq.method (is_text (up_to b'?' rq.url) "/grains") rq.body

  module _ (s : Store v) (ends : ℕ → WriteEnd) (settle : v.Index → v.Index) where
    abbrev pub Loads : List GrainRec → Store v × Result ℕ → Store v → ℕ → Type 0
    Loads recs (t, ok n) s' status =
        (n ≡ length recs) × (status ≡ 200) × (s' ≡ settled j trim message v f lossy settle t)
    Loads recs (t, err e) s' status = (status ≡ 500) × (s' ≡ t)

    -- The store is left as it is, or is that which `load` makes.
    abbrev pub Follows : Option (List GrainRec) → Store v → ℕ → Type 0
    Follows none s' status = s' ≡ s
    Follows (some recs) s' status = Loads recs (load v s (with_ends ends 0 recs)) s' status

    loaded-length :
        (n : ℕ) (t : GrainEngine v × Result ℕ) (m : ℕ) → (loaded v s n t).1 ≡ ok m → m ≡ n
    unfolding loaded
    loaded-length n (e, ok x) m h = cc
    loaded-length n (e, err x) m h = absurd (cc)

    length-with_ends : (i : ℕ) (recs : List GrainRec) → length (with_ends ends i recs) ≡ length recs
    unfolding with_ends
    length-with_ends i [] = refl
    length-with_ends i (r ∷ recs) = ap (λ (n : ℕ). suc n) (length-with_ends (suc i) recs)

    load_reply-Loads :
        (recs : List GrainRec) (t : Store v × Result ℕ)
        → ((n : ℕ) → t.1 ≡ ok n → n ≡ length recs)
        → let done = load_reply j trim message v f lossy settle t in
          Loads recs t (done.0) (done.1.status)
    unfolding load_reply error_resp
    load_reply-Loads recs (t, ok n) counted = (counted n refl, refl, refl)
    load_reply-Loads recs (t, err x) counted = (refl, refl)

    length-load :
        (recs : List GrainRec) (n : ℕ)
        → (load v s (with_ends ends 0 recs)).1 ≡ ok n
        → n ≡ length recs
    unfolding load
    length-load recs n h =
        loaded-length (length (with_ends ends 0 recs))
          (load_loop v s.engine s.last_seq (with_ends ends 0 recs)) n h
        ∙ length-with_ends 0 recs

    load_parsed-Follows :
        (parsed : Attempt (List GrainRec))
        → let done = load_parsed j trim message v f lossy s ends settle parsed in
          Follows (got_grains parsed) (done.0) (done.1.status)
    unfolding load_parsed got_grains
    load_parsed-Follows (got recs) =
        load_reply-Loads recs (load v s (with_ends ends 0 recs)) (length-load recs)
    load_parsed-Follows (refused m) = refl

    post_grains-Follows :
        (body : Option (List ℕ))
        → let done = post_grains j trim message v f lossy s ends settle body in
          Follows (read_grains body) (done.0) (done.1.status)
    unfolding post_grains read_grains
    post_grains-Follows none = refl
    post_grains-Follows (some body) = load_parsed-Follows (parse_grains j trim body)

    same_store :
        (o : Option Response) (s' : Store v) (r : Response)
        → ◌>>=◌ {B = Store v × Response} o (λ response. some (s, response)) ≡ some (s', r)
        → s' ≡ s
    same_store none s' r e = absurd (cc)
    same_store (some x) s' r e = cc

    respond-same :
        (body : Option (List ℕ)) (to : Route) (s' : Store v) (r : Response)
        → to ≢ on_grains
        → respond j trim message v f lossy s ends settle body to ≡ some (s', r)
        → s' ≡ s
    unfolding respond
    respond-same body get_health s' r apart e = cc
    respond-same body get_stats s' r apart e = cc
    respond-same body on_grains s' r apart e = absurd (apart refl)
    respond-same body on_query s' r apart e =
        same_store (post_query j trim message v f lossy s body) s' r e
    respond-same body not_found s' r apart e = cc

    respond-grains :
        (body : Option (List ℕ)) (s' : Store v) (r : Response)
        → respond j trim message v f lossy s ends settle body on_grains ≡ some (s', r)
        → Follows (read_grains body) s' r.status
    unfolding respond
    respond-grains body s' r e =
        let done : (post_grains j trim message v f lossy s ends settle body ≡ (s', r)) = cc in
        subst (λ (p : Store v × Response). Follows (read_grains body) (p.0) (p.1.status)) done
          (post_grains-Follows body)

    -- Only a POST to the path of grains is handled by the arm for grains.
    respond-Follows :
        (m : Method) (url : List ℕ) (body : Option (List ℕ)) (s' : Store v) (r : Response)
        → respond j trim message v f lossy s ends settle body
            (route (record { method = m; url = url; body = body }))
          ≡ some (s', r)
        → Follows (posted m (is_text (up_to b'?' url) "/grains") body) s' r.status
    unfolding route posted
    respond-Follows get url body s' r e = elim (Bool-cases (is_text (up_to b'?' url) "/health")) [
      | inl health ↦ respond-same body get_health s' r (λ p. absurd (cc)) (rw health at e)
      | inr h ↦ elim (Bool-cases (is_text (up_to b'?' url) "/stats")) [
        | inl stats ↦ respond-same body get_stats s' r (λ p. absurd (cc)) (rw (h, stats) at e)
        | inr t ↦ respond-same body not_found s' r (λ p. absurd (cc)) (rw (h, t) at e)
      ]
    ]
    respond-Follows post url body s' r e = elim (Bool-cases (is_text (up_to b'?' url) "/grains")) [
      | inl grains ↦ rw grains (respond-grains body s' r (rw grains at e))
      | inr g ↦ elim (Bool-cases (is_text (up_to b'?' url) "/query")) [
        | inl query ↦ rw g (respond-same body on_query s' r (λ p. absurd (cc)) (rw (g, query) at e))
        | inr q ↦ rw g (respond-same body not_found s' r (λ p. absurd (cc)) (rw (g, q) at e))
      ]
    ]
    respond-Follows other url body s' r e = respond-same body not_found s' r (λ p. absurd (cc)) e

    -- What a request that is answered does. It brings grains just if it is a POST to the path "/grains",
    -- a query string aside, whose body parses. One that brings none leaves the store as it is; one that
    -- brings some makes it the store of `load` with just these grains, and its response has the status 200 if
    -- all were loaded, the index then having settled, and 500 if not.
    pub handle-Follows :
        (rq : Request) (s' : Store v) (r : Response)
        → handle j trim message v f lossy s ends settle rq ≡ some (s', r)
        → Follows (grains_of rq) s' r.status
    unfolding handle grains_of
    handle-Follows rq s' r e = respond-Follows rq.method rq.url rq.body s' r e
