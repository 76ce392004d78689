-- ===== src/Server/Agent.antt =====
-- server/src/bin/grainstore-mcp.rs: the tools, and the answers to the lines of a JSON-RPC session.
-- serde_json's pretty printing and the constant that describes the tools are parameters; a line that
-- does not parse is noted on stderr, which is not modelled.
pub mod Same
pub mod Replies
pub mod Session
use Prim.Native.String.{String}
use grainstore.Base.{
  ℕ, ◌-◌, ◌^◌, List, [], ◌∷◌, ◌++◌, Option, none, some, Bool, true, ◌||◌, if◌then◌else◌,
}
use grainstore.Base.Panic
use grainstore.Error.{Error, Result, ok, err}
use grainstore.Float.{Float32}
use grainstore.Server
use grainstore.Server.{GrainRec, QueryHit, Store, indexed, load}
use grainstore.Server.Daemon
use grainstore.Server.Body.{as_u8, unwrap_or, ok_or}
use grainstore.Server.Daemon.{category_of, with_ends, settled, matches_value, stats}
use grainstore.Server.Json.{Attempt, got, refused, ◌>>=◌, Json, u64_of, i64_of, str_of, array_of}
use grainstore.Base.Codes.{codes}
use grainstore.Server.Words.{same_bytes, is_text, decimal}
use grainstore.Vector.{VectorIndex}
use grainstore.Wal.Commit.{WriteEnd}

-- The arms of the `match` on the method.
pub data Arm : Type 0 where
  initialize list_tools call ping notification other : Arm

unfoldable pub arm_of : List ℕ → Arm
unfolding same_bytes
arm_of name =
    if is_text name "initialize"
    then Arm.initialize
    else if is_text name "tools/list"
    then Arm.list_tools
    else if is_text name "tools/call"
    then Arm.call
    else if is_text name "ping"
    then Arm.ping
    else if is_text name "notifications/initialized" || is_text name "notifications/cancelled"
    then Arm.notification
    else Arm.other

module _ (j : Json) where
  -- `id.unwrap_or(Value::Null)`
  abbrev pub id_or_null : Option j.Value → j.Value
  id_or_null none = j.null
  id_or_null (some id) = id

  abbrev envelope : Option j.Value → j.Value
  envelope id = j.insert (j.insert j.empty "jsonrpc" (j.of_str (codes "2.0"))) "id" (id_or_null id)

  unfoldable pub rpc_ok : Option j.Value → j.Value → j.Value
  rpc_ok id result = j.insert (envelope id) "result" result

  -- The code is -32601.
  unfoldable pub rpc_err : Option j.Value → ℕ → List ℕ → j.Value
  rpc_err id status message =
      let coded = j.insert j.empty "code" (j.of_i64 status) in
      j.insert (envelope id) "error" (j.insert coded "message" (j.of_str message))

  abbrev content : List ℕ → j.Value
  content text =
      let typed = j.insert j.empty "type" (j.of_str (codes "text")) in
      j.insert j.empty "content" (j.array (j.insert typed "text" (j.of_str text) ∷ []))

  unfoldable pub tool_text : List ℕ → j.Value
  tool_text text = content text

  unfoldable pub tool_err : List ℕ → j.Value
  tool_err text = j.insert (content text) "isError" (j.of_bool true)

  unfoldable pub grain_of : j.Value → Option GrainRec
  grain_of g = elim (u64_of j g "sid") [
    | none ↦ none
    | some sid ↦ elim (str_of j g "text") [
      | none ↦ none
      | some text ↦ some (record {
        sid = sid;
        category = as_u8 (unwrap_or 0 (u64_of j g "category"));
        amount = unwrap_or 0 (i64_of j g "amount");
        text = text;
      })
    ]
  ]

  -- The loop of `tool_load` over the grains.
  unfoldable pub grain_loop : List GrainRec → List j.Value → Attempt (List GrainRec)
  unfolding grain_of
  grain_loop recs [] = got recs
  grain_loop recs (g ∷ items) = elim (grain_of g) [
    | none ↦ refused (codes "each grain needs 'sid' and 'text'")
    | some r ↦ grain_loop (recs ++ r ∷ []) items
  ]

  module _ (trim : List ℕ → List ℕ) (message : Error → List ℕ) (v : VectorIndex) (f : Float32)
      (lossy : List ℕ → List ℕ) (pretty : j.Value → List ℕ) (tool_defs : j.Value) where
    unfoldable pub load_text : (v.Index → v.Index) → Store v × Result ℕ → Store v × j.Value
    unfolding tool_text tool_err decimal
    load_text settle (s, ok n) =
        let s' = settled j trim message v f lossy settle s in
        (
          s',
          tool_text (
              codes "Loaded "
              ++ (decimal n
                  ++ (codes " grains. Index now holds "
                      ++ (decimal (indexed v s') ++ codes " vectors.")))),
        )
    load_text settle (s, err e) = (s, tool_err (codes "load failed: " ++ message e))

    unfoldable pub load_grains :
        Store v → (ℕ → WriteEnd) → (v.Index → v.Index) → Attempt (List GrainRec) → Store v × j.Value
    unfolding load_text tool_err with_ends
    load_grains s ends settle (got recs) = load_text settle (load v s (with_ends ends 0 recs))
    load_grains s ends settle (refused m) = (s, tool_err m)

    unfoldable pub tool_load :
        Store v → (ℕ → WriteEnd) → (v.Index → v.Index) → j.Value → Store v × j.Value
    unfolding load_grains grain_loop tool_err
    tool_load s ends settle args = elim (array_of j args "grains") [
      | none ↦ (s, tool_err (codes "missing 'grains' array"))
      | some items ↦ load_grains s ends settle (grain_loop [] items)
    ]

    unfoldable pub query_text : Result (List QueryHit) → j.Value
    unfolding tool_text tool_err matches_value
    query_text (ok hits) = tool_text (pretty (matches_value j hits))
    query_text (err e) = tool_err (codes "query failed: " ++ message e)

    -- A panic is `none`.
    unfoldable pub tool_query : Store v → j.Value → Option j.Value
    unfolding query_text tool_err
    tool_query s args = elim (str_of j args "text") [
      | none ↦ some (tool_err (codes "missing 'text'"))
      | some text ↦
          Panic.◌>>=◌
            (Server.query v f lossy s text (category_of (u64_of j args "category"))
              (i64_of j args "min_amount") (i64_of j args "max_amount")
              (unwrap_or 5 (u64_of j args "k")))
            λ answer. some (query_text answer)
    ]

    -- `p.get(key).cloned().unwrap_or(json!({}))`
    abbrev object_of : j.Value → String → j.Value
    object_of p key = elim (j.get p key) [ none ↦ j.empty | some x ↦ x ]

    -- `p.get(key).and_then(|n| n.as_str()).unwrap_or("")`
    abbrev pub name_of : j.Value → String → List ℕ
    name_of p key = elim (str_of j p key) [ none ↦ [] | some name ↦ name ]

    unfoldable pub call_tool :
        Store v → (ℕ → WriteEnd) → (v.Index → v.Index) → j.Value → Option (Store v × j.Value)
    unfolding tool_load tool_query tool_text tool_err stats same_bytes
    call_tool s ends settle p =
        let name = name_of p "name" in
        let args = object_of p "arguments" in
        if is_text name "grain_load"
        then some (tool_load s ends settle args)
        else if is_text name "grain_query"
        then Panic.◌>>=◌ (tool_query s args) (λ r. some (s, r))
        else if is_text name "grain_stats"
        then some (s, tool_text (j.to_string (stats j trim message v f lossy s)))
        else some (s, tool_err (codes "unknown tool: " ++ name))

    -- What `initialize` reports.
    abbrev capabilities : j.Value
    capabilities =
        let tools = j.insert j.empty "tools" j.empty in
        let named = j.insert j.empty "name" (j.of_str (codes "grainstore")) in
        let info = j.insert named "version" (j.of_str (codes "0.1.0")) in
        let version = j.insert j.empty "protocolVersion" (j.of_str (codes "2024-11-05")) in
        j.insert (j.insert version "capabilities" tools) "serverInfo" info

    -- The response to a request: the store and the value that is sent, if any.
    unfoldable pub answer :
        Store v
        → (ℕ → WriteEnd)
        → (v.Index → v.Index)
        → j.Value
        → Option j.Value
        → Arm
        → Option (Store v × Option j.Value)
    unfolding call_tool rpc_ok rpc_err
    answer s ends settle req id initialize = some (s, some (rpc_ok id capabilities))
    answer s ends settle req id list_tools =
        some (s, some (rpc_ok id (j.insert j.empty "tools" tool_defs)))
    answer s ends settle req id call =
        Panic.◌>>=◌ (call_tool s ends settle (object_of req "params"))
          (λ done. some (done.0, some (rpc_ok id (done.1))))
    answer s ends settle req id ping = some (s, some (rpc_ok id j.empty))
    answer s ends settle req id notification = some (s, none)
    answer s ends settle req none other = some (s, none)
    answer s ends settle req (some id) other =
        some (s, some (rpc_err (some id) (2 ^ 64 - 32601) (codes "method not found")))

    unfoldable pub answer_request :
        Store v → (ℕ → WriteEnd) → (v.Index → v.Index) → j.Value → Option (Store v × Option j.Value)
    unfolding answer arm_of
    answer_request s ends settle req =
        answer s ends settle req (j.get req "id") (arm_of (name_of req "method"))

    -- A line of the session, or none for a panic.
    unfoldable pub answer_line :
        Store v → (ℕ → WriteEnd) → (v.Index → v.Index) → List ℕ → Option (Store v × Option j.Value)
    unfolding answer_request
    answer_line s ends settle line = elim (trim line) [
      | [] ↦ some (s, none)
      | b ∷ bs ↦ elim (j.from_str line) [
        | got req ↦ answer_request s ends settle req
        | refused e ↦ some (s, none)
      ]
    ]
