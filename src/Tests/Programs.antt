-- ===== src/Tests/Programs.antt =====
-- The witnesses of the theorems on the programs of the server: a body with a grain whose category is 300,
-- and a query for the category 300.
use grainstore.Base.{ℕ, ◌≡◌, refl, true, List, [], ◌∷◌, ◌++◌, All, none, some}
use grainstore.Base.Panic
use grainstore.Error.{Error}
use grainstore.Server
use grainstore.Server.{GrainRec, Store, QueryHit}
use grainstore.Server.Agent.{answer, answer_request, arm_of, tool_load, rpc_ok}
use grainstore.Server.Agent.Replies.{answer_request-Replies}
use grainstore.Server.Agent
use grainstore.Server.Agent.Session
use grainstore.Server.Agent.Same.{handle-tool_load}
use grainstore.Server.Client.{Call, calls, flag_loop, first_body, is_flag, join, command}
use grainstore.Server.Client.Asked.{asked}
use grainstore.Server.Client.Arrival.{arrives}
use grainstore.Server.Client.Commands.{NoFlag, StartsWithFlag, handle-command}
use grainstore.Server.Body.{parse_grains, parse_value}
use grainstore.Server.Daemon.{
  Request, Response, post, get, on_grains, route, handle, respond, post_grains, query_reply,
}
use grainstore.Server.Daemon.Effect.{grains_of, Follows}
use grainstore.Server.Daemon.Stored.{Stored, handle-Stored}
use grainstore.Server.Daemon
use grainstore.Server.Daemon.Total
use grainstore.Server.Body.Grains.{IsStored, parse_grains-IsStored}
use grainstore.Server.Json.{Json, got, array_of, u64_of, str_of, i64_of}
use grainstore.Base.Codes.{codes}
use grainstore.Server.Words.{parse_u64, parse_i64, same_bytes, up_to}
use grainstore.Tests.Blocks.{whole}
use grainstore.Tests.Index.{fixed_index}
use grainstore.Tests.Served.{served, ascii}
use grainstore.Tests.Wire.{
  Value, Values, Fields, json, json-HasBounds, json-HasFields, print, read, get_field, put_field,
  to_u64, to_i64, to_str, to_list, is_map,
}
use grainstore.Vector.{Candidate}
use grainstore.Wal.Commit.{WriteEnd, synced}

abbrev as_given : List ℕ → List ℕ
as_given text = text

abbrev no_message : Error → List ℕ
no_message e = []

-- {"sid": 7, "text": "A", "category": 300}
abbrev grain_value : Value
grain_value = Value.fields (
    Fields.field "sid" (Value.number 7) (
      Fields.field "text" (Value.word (65 ∷ []))
        (Fields.field "category" (Value.number 300) Fields.done)))

-- {"grains": [..]}
abbrev body_value : Value
body_value =
    Value.fields
      (Fields.field "grains" (Value.items (Values.item grain_value Values.end)) Fields.done)

abbrev posted : Request
posted = record { method = post; url = codes "/grains?"; body = some (print body_value) }

abbrev health : Request
health = record { method = get; url = codes "/health"; body = none }

abbrev grain_44 : GrainRec
grain_44 = record { sid = 7; category = 44; amount = 0; text = 65 ∷ [] }

parse-body : parse_grains (json (body_value ∷ [])) as_given (print body_value) ≡ got (grain_44 ∷ [])
unfolding parse_grains parse_value read get_field to_u64 to_i64 to_str to_list is_map print
    same_bytes array_of u64_of str_of i64_of
parse-body = refl

parse_grains-IsStored_example :
    All
      (IsStored (json (body_value ∷ [])) (json-HasBounds (body_value ∷ [])) ascii (λ v t h. refl))
      (grain_44 ∷ [])
parse_grains-IsStored_example =
    parse_grains-IsStored (json (body_value ∷ [])) (json-HasBounds (body_value ∷ [])) ascii
      (λ v t h. refl) as_given (print body_value) (grain_44 ∷ []) parse-body

-- The library that reads the body above.
abbrev of_body : Json
of_body = json (body_value ∷ [])

abbrev ends : ℕ → WriteEnd
ends i = synced

abbrev settle : List Candidate → List Candidate
settle index = index

abbrev after_post : Store fixed_index × Response
after_post =
    post_grains of_body as_given no_message fixed_index whole ascii served ends settle posted.body

handled :
    handle of_body as_given no_message fixed_index whole ascii served ends settle posted
    ≡ some (after_post.0, after_post.1)
unfolding handle route respond up_to same_bytes
handled = refl

handle-Stored_example :
    Follows of_body as_given no_message fixed_index whole ascii served ends settle
      (grains_of of_body as_given no_message fixed_index whole ascii posted)
      (after_post.0)
      (after_post.1.status)
    × Stored fixed_index
        (grains_of of_body as_given no_message fixed_index whole ascii posted)
        (after_post.0)
        (after_post.1.status)
handle-Stored_example =
    handle-Stored of_body as_given no_message fixed_index whole ascii served ends settle posted
      (after_post.0) (after_post.1) refl handled

-- `query A -c 300 -k 2`
abbrev flags : List (List ℕ)
flags = codes "-c" ∷ codes "300" ∷ codes "-k" ∷ codes "2" ∷ []

abbrev query_value : Value
query_value = Value.fields (
    Fields.field "k" (Value.number 2) (
      Fields.field "category" (Value.number 300) (
        Fields.field "k" (Value.number 5)
          (Fields.field "text" (Value.word (65 ∷ [])) Fields.done))))

abbrev of_query : Json
of_query = json (query_value ∷ [])

-- A query for two hits, and a request for the health.
abbrev two_requests : List ((ℕ → WriteEnd) × (List Candidate → List Candidate) × Request)
two_requests =
    (ends, settle, record { method = post; url = codes "/query"; body = some (print query_value) })
    ∷ (ends, settle, health)
    ∷ []

sent_query : flag_loop of_query (first_body of_query (65 ∷ [])) flags ≡ query_value
unfolding flag_loop first_body put_field parse_u64 parse_i64 same_bytes
sent_query = refl

read_query : read (query_value ∷ []) (print query_value) ≡ got query_value
unfolding read print same_bytes
read_query = refl

plain_words : All NoFlag (codes "A" ∷ []) × StartsWithFlag flags
unfolding is_flag
plain_words = ((refl, tt), refl)

joined : join (codes "A" ∷ []) ≡ 65 ∷ []
unfolding join
joined = refl

handle-command_example :
    (call : Call) × (command of_query
        (codes "http://h")
        (codes "query" ∷ ((codes "A" ∷ []) ++ flags))
      ≡ calls call)
    × (handle of_query as_given no_message fixed_index whole ascii served ends settle
          (arrives (codes "http://h") call)
        ≡ Panic.◌>>=◌ {B = Store fixed_index × Response}
            (Server.query fixed_index whole ascii served (65 ∷ []) (some 44) none none 2)
            (λ answer.
              some
                (served, query_reply of_query as_given no_message fixed_index whole ascii answer)))
unfolding asked parse_u64 same_bytes
handle-command_example =
    handle-command of_query (json-HasFields (query_value ∷ [])) as_given no_message fixed_index
      whole ascii (codes "http://h") (codes "A" ∷ []) flags 65 [] served ends settle plain_words.0
      plain_words.1 joined (rw sent_query read_query)

abbrev no_tools : Value
no_tools = Value.items Values.end

read_body : read (body_value ∷ []) (print body_value) ≡ got body_value
unfolding read print same_bytes
read_body = refl

posted-route : route posted ≡ on_grains
unfolding route up_to same_bytes
posted-route = refl

held_grains : array_of of_body body_value "grains" ≡ some (grain_value ∷ [])
unfolding array_of get_field to_list
held_grains = refl

body_IsObject : (to_list body_value ≡ none) × (is_map body_value ≡ true)
unfolding to_list is_map
body_IsObject = (refl, refl)

handle-tool_load_example :
    Panic.◌>>=◌ {B = Store fixed_index}
      (handle of_body as_given no_message fixed_index whole ascii served ends settle posted)
      (λ done. some (done.0))
    ≡ some (
        (tool_load of_body as_given no_message fixed_index whole ascii print no_tools served ends
          settle body_value).0)
handle-tool_load_example =
    handle-tool_load of_body as_given no_message fixed_index whole ascii print no_tools served ends
      settle body_value (grain_value ∷ []) posted (print body_value) posted-route refl read_body
      body_IsObject.0 body_IsObject.1 held_grains

-- {"id": 4, "method": "ping"}
abbrev ping_value : Value
ping_value = Value.fields (
    Fields.field "id" (Value.number 4)
      (Fields.field "method" (Value.word (codes "ping")) Fields.done))

pinged :
    answer_request of_body as_given no_message fixed_index whole ascii print no_tools served ends
      settle ping_value
    ≡ some (served, some (rpc_ok of_body (some (Value.number 4)) of_body.empty))
unfolding answer_request answer arm_of same_bytes str_of get_field to_str
pinged = refl

answer_request-Replies_example :
    get_field (rpc_ok of_body (some (Value.number 4)) of_body.empty) "id" ≡ some (Value.number 4)
unfolding get_field
answer_request-Replies_example =
    answer_request-Replies of_body (json-HasFields (body_value ∷ [])) as_given no_message
      fixed_index whole ascii print no_tools served ends settle ping_value served
      (some (rpc_ok of_body (some (Value.number 4)) of_body.empty)) pinged

-- {"id": 4, "method": "tools/call", "params": {"name": "grain_query", "arguments": ..}}
abbrev call_value : Value
call_value = Value.fields (
    Fields.field "id" (Value.number 4) (
      Fields.field "method" (Value.word (codes "tools/call")) (
        Fields.field "params"
          (Value.fields (
            Fields.field "name" (Value.word (codes "grain_query"))
              (Fields.field "arguments" query_value Fields.done)))
          Fields.done)))

abbrev of_call : Json
of_call = json (call_value ∷ [])

-- A line with a query, and one that cannot be read.
abbrev two_lines : List ((ℕ → WriteEnd) × (List Candidate → List Candidate) × List ℕ)
two_lines = (ends, settle, print call_value) ∷ (ends, settle, 1 ∷ []) ∷ []
