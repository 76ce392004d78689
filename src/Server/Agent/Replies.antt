-- ===== src/Server/Agent/Replies.antt =====
-- server/src/bin/grainstore-mcp.rs: the answers that a session sends.
use grainstore.Base.{ℕ, ◌≡◌, refl, subst, ◌⊎◌, List, Option, none, some, true, inl, inr}
use grainstore.Base.Panic
use grainstore.Error.{Error}
use grainstore.Float.{Float32}
use grainstore.Server.{Store}
use grainstore.Server.Agent.{
  id_or_null, envelope, rpc_ok, rpc_err, Arm, notification, other, initialize, list_tools, call,
  ping, arm_of, name_of, call_tool, answer, answer_request,
}
use grainstore.Server.Json.{Json, HasFields}
use grainstore.Vector.{VectorIndex}
use grainstore.Wal.Commit.{WriteEnd}

module _ (j : Json) (laws : HasFields j) where
  envelope_object : (id : Option j.Value) → j.is_object (envelope j id) ≡ true
  envelope_object id =
      laws.is_object-insert (j.insert j.empty "jsonrpc" _) "id" (id_or_null j id)
        (laws.is_object-insert j.empty "jsonrpc" _ laws.is_object-empty)

  envelope_id : (id : Option j.Value) → j.get (envelope j id) "id" ≡ some (id_or_null j id)
  envelope_id id =
      laws.get-insert (j.insert j.empty "jsonrpc" _) "id" "id" (id_or_null j id)
        (laws.is_object-insert j.empty "jsonrpc" _ laws.is_object-empty)

  rpc_ok_id :
      (id : Option j.Value) (result : j.Value)
      → j.get (rpc_ok j id result) "id" ≡ some (id_or_null j id)
  unfolding rpc_ok
  rpc_ok_id id result =
      rw (laws.get-insert (envelope j id) "result" "id" result (envelope_object id))
        (envelope_id id)

  rpc_err_id :
      (id : Option j.Value) (code : ℕ) (message : List ℕ)
      → j.get (rpc_err j id code message) "id" ≡ some (id_or_null j id)
  unfolding rpc_err
  rpc_err_id id code message =
      rw (laws.get-insert (envelope j id) "error" "id" _ (envelope_object id)) (envelope_id id)

  -- What is sent for a request: a value with its id, or with null if it has none; nothing only if the
  -- method is that of a notification, or is not known and there is no id.
  abbrev pub Replies : Option j.Value → Arm → Option j.Value → Type 0
  Replies id arm (some x) = j.get x "id" ≡ some (id_or_null j id)
  Replies id arm none = (arm ≡ notification) ⊎ ((arm ≡ other) × (id ≡ none))

  module _ (trim : List ℕ → List ℕ) (message : Error → List ℕ) (v : VectorIndex) (f : Float32)
      (lossy : List ℕ → List ℕ) (pretty : j.Value → List ℕ) (tool_defs : j.Value) (s : Store v)
      (ends : ℕ → WriteEnd) (settle : v.Index → v.Index) where
    sent :
        (id : Option j.Value) (arm : Arm) (reply : j.Value) (t s' : Store v) (x : Option j.Value)
        → j.get reply "id" ≡ some (id_or_null j id)
        → ◌≡◌ {A = Option (Store v × Option j.Value)} (some (t, some reply)) (some (s', x))
        → Replies id arm x
    sent id arm reply t s' x named e =
        let same : (some reply ≡ x) = cc in subst (Replies id arm) same named

    called :
        (id : Option j.Value) (o : Option (Store v × j.Value)) (s' : Store v) (x : Option j.Value)
        → Panic.◌>>=◌ {B = Store v × Option j.Value} o
            (λ done. some (done.0, some (rpc_ok j id (done.1))))
          ≡ some (s', x)
        → Replies id call x
    called id none s' x e = absurd (cc)
    called id (some (t, r)) s' x e = sent id call (rpc_ok j id r) t s' x (rpc_ok_id id r) e

    answer-Replies :
        (req : j.Value) (id : Option j.Value) (arm : Arm) (s' : Store v) (x : Option j.Value)
        → answer j trim message v f lossy pretty tool_defs s ends settle req id arm ≡ some (s', x)
        → Replies id arm x
    unfolding answer
    answer-Replies req id initialize s' x e =
        sent id initialize (rpc_ok j id _) s s' x (rpc_ok_id id _) e
    answer-Replies req id list_tools s' x e =
        sent id list_tools (rpc_ok j id _) s s' x (rpc_ok_id id _) e
    answer-Replies req id call s' x e =
        called id (call_tool j trim message v f lossy pretty tool_defs s ends settle _) s' x e
    answer-Replies req id ping s' x e = sent id ping (rpc_ok j id _) s s' x (rpc_ok_id id _) e
    answer-Replies req id notification s' x e =
        let silent : (none ≡ x) = cc in subst (Replies id notification) silent (inl refl)
    answer-Replies req none other s' x e =
        let silent : (none ≡ x) = cc in subst (Replies none other) silent (inr (refl, refl))
    answer-Replies req (some id) other s' x e =
        sent (some id) other (rpc_err j (some id) _ _) s s' x (rpc_err_id (some id) _ _) e

    -- What is sent for a request that does not panic has the id of the request, or null if it has none.
    -- Nothing is sent only where the method is that of a notification, or is unknown and there is no id.
    pub answer_request-Replies :
        (req : j.Value) (s' : Store v) (x : Option j.Value)
        → answer_request j trim message v f lossy pretty tool_defs s ends settle req ≡ some (s', x)
        → Replies
            (j.get req "id")
            (arm_of (name_of j trim message v f lossy pretty tool_defs req "method"))
            x
    unfolding answer_request
    answer_request-Replies req s' x e =
        answer-Replies req (j.get req "id")
          (arm_of (name_of j trim message v f lossy pretty tool_defs req "method")) s' x e
