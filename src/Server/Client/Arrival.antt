-- ===== src/Server/Client/Arrival.antt =====
-- server/src/bin/grainstore.rs and grainstored.rs: a query of the client, as the server answers it.
use grainstore.Base.{
  ℕ, ◌≡◌, refl, List, [], ◌++◌, Option, none, some, length, drop, drop-append_length,
}
use grainstore.Base.Panic
use grainstore.Error.{Error, Result}
use grainstore.Float.{Float32}
use grainstore.Server
use grainstore.Server.{Store, QueryHit}
use grainstore.Server.Client.{Call, fetch, send, flag_loop, first_body, do_query}
use grainstore.Server.Daemon.{
  Request, Response, Method, post, post_query, query_value, ask, category_of, respond, route,
  query_reply, handle,
}
use grainstore.Server.Json.{got, Json, HasFields}
use grainstore.Base.Codes.{codes}
use grainstore.Vector.{VectorIndex}
use grainstore.Wal.Commit.{WriteEnd}
use grainstore.Server.Client.Asked.{
  Asked, nothing_asked, asked, Asks, first_body-Asks, flag_loop-Asks,
}

-- The request that the server gets of a call to its address: what follows the address is the url.
unfoldable pub arrives : List ℕ → Call → Request
arrives server (fetch url) = record {
  method = Method.get;
  url = drop (length server) url;
  body = some [];
}
arrives server (send url body) = record {
  method = post;
  url = drop (length server) url;
  body = some body;
}

module _ (j : Json) (laws : HasFields j) (trim : List ℕ → List ℕ) (message : Error → List ℕ)
    (v : VectorIndex) (f : Float32) (lossy : List ℕ → List ℕ) where
  paired :
      (s : Store v) (o : Option (Result (List QueryHit)))
      (reply : Result (List QueryHit) → Response)
      → Panic.◌>>=◌ {B = Store v × Response}
          (Panic.◌>>=◌ o λ answer. some (reply answer))
          (λ response. some (s, response))
        ≡ Panic.◌>>=◌ {B = Store v × Response} o (λ answer. some (s, reply answer))
  paired s none reply = refl
  paired s (some answer) reply = refl

  query_value-Asks :
      (s : Store v) (text : List ℕ) (q : Asked) (body : j.Value)
      → Asks j laws text q body
      → query_value j trim message v f lossy s body
        ≡ Panic.◌>>=◌
            (Server.query v f lossy s text (category_of q.category) q.min_amount q.max_amount q.k)
            (λ answer. some (query_reply j trim message v f lossy answer))
  unfolding query_value ask
  query_value-Asks s text q body a =
      rw (query_value, a.text_there, ask, a.category_there, a.min_there, a.max_there, a.k_there)

  -- The response to a query of the client, whose body is read as what was printed: that of the store's
  -- query of the text, with the category of the last `--category` modulo 256, and the amounts and the
  -- number of hits of the last `--min`, `--max` and `-k` that have a number after them, 5 hits if none has.
  pub handle-do_query :
      (server text : List ℕ) (flags : List (List ℕ)) (s : Store v) (ends : ℕ → WriteEnd)
      (settle : v.Index → v.Index)
      → j.from_str (j.to_string (flag_loop j (first_body j text) flags))
        ≡ got (flag_loop j (first_body j text) flags)
      → let q = asked nothing_asked flags in
        handle j trim message v f lossy s ends settle
          (arrives server (do_query j server text flags))
        ≡ Panic.◌>>=◌ {B = Store v × Response}
            (Server.query v f lossy s text (category_of q.category) q.min_amount q.max_amount q.k)
            (λ answer. some (s, query_reply j trim message v f lossy answer))
  unfolding handle respond route arrives do_query post_query
  handle-do_query server text flags s ends settle read =
      let body = flag_loop j (first_body j text) flags in
      let a =
        flag_loop-Asks j laws flags text nothing_asked (first_body j text)
          (first_body-Asks j laws text) in
      let path : (drop (length server) (server ++ codes "/query") ≡ codes "/query") =
        drop-append_length (length server) server (codes "/query") refl in
      let q = asked nothing_asked flags in
      rw (path, post_query, read, query_value-Asks s text q body a)
        (paired s
          (Server.query v f lossy s text (category_of q.category) q.min_amount q.max_amount q.k)
          (query_reply j trim message v f lossy))
