-- ===== src/Governance/Governed.antt =====
-- src/governance.rs: the governed engine. The policy is a parameter, as the trait is in the program.
use grainstore.Base.{
  ℕ, ◌+◌, ◌-◌, List, [], ◌∷◌, ◌++◌, Option, none, some, Bool, true, false, leb, if◌then◌else◌,
}
use grainstore.Base.HashMap
use grainstore.Base.Panic
use grainstore.Disclosure.{grain_tokens, total_tokens}
use grainstore.Engine
use grainstore.Engine.{GrainEngine, WriteMeta}
use grainstore.Error.{Result, ok, err}
use grainstore.Error.Error.{denied as is_denied}
use grainstore.Governance.{
  AgentId, Action, read, write, Decision, allowed, masked, denied, GrainRef,
}
use grainstore.Model.{Sid, PredId, Hlc, Grain, Val, bytes}
use grainstore.Planner.{Filter, Float64, Plan}
use grainstore.Query.{Ranked}
use grainstore.Truth
use grainstore.Truth.{strong}
use grainstore.Vector.{VectorIndex}
use grainstore.Wal.Commit.{WriteEnd}

-- The trait `Policy`.
abbrev pub Policy : Type 0
Policy = AgentId → Action → GrainRef → Decision

pub record AuditRecord : Type 0 where
  pub seq : ℕ
  pub agent : AgentId
  pub action : Action
  pub sid : Sid
  pub pred : PredId
  pub decision : Decision
  pub tokens : ℕ

-- The first byte of the value.
category_of_val : Val → Option ℕ
category_of_val (bytes (b ∷ _)) = some b
category_of_val _ = none

unfoldable pub category_of : Grain → Option ℕ
unfolding category_of_val
category_of g = category_of_val g.val

-- b"[REDACTED]"
abbrev pub redacted : Val
redacted = bytes (91 ∷ 82 ∷ 69 ∷ 68 ∷ 65 ∷ 67 ∷ 84 ∷ 69 ∷ 68 ∷ 93 ∷ [])

unfoldable pub redact : Grain → Grain
redact g = record g { val = redacted }

unfoldable pub target_of : PredId → Grain → GrainRef
unfolding category_of
target_of pred g = record { sid = g.sid; pred = pred; category = category_of g }

-- The budgets and the audit log of a GovernedEngine.
pub record Ledger : Type 0 where
  pub default_budget : ℕ
  pub budgets : List (ℕ × ℕ)
  pub audit : List AuditRecord
  pub audit_seq : ℕ

unfoldable pub new : ℕ → Ledger
new default_budget = record {
  default_budget = default_budget;
  budgets = [];
  audit = [];
  audit_seq = 0;
}

-- `record`, whose name is a keyword here
unfoldable pub record_access : Ledger → AgentId → Action → Sid → PredId → Decision → ℕ → Ledger
record_access l agent action sid pred decision tokens = record l {
  audit =
      l.audit
      ++ (record {
        seq = l.audit_seq;
        agent = agent;
        action = action;
        sid = sid;
        pred = pred;
        decision = decision;
        tokens = tokens;
      }
          ∷ []);
  audit_seq = l.audit_seq + 1;
}

unfoldable pub remaining_budget : Ledger → AgentId → ℕ
remaining_budget l agent = elim (HashMap.get agent l.budgets) [
  | some n ↦ n
  | none ↦ l.default_budget
]

-- The remainder is read and written in the entry that `or_insert` left.
unfoldable pub try_spend : Ledger → AgentId → ℕ → Ledger × Bool
unfolding remaining_budget
try_spend l agent cost =
    let rem = remaining_budget l agent in
    let entered = HashMap.or_insert agent l.default_budget l.budgets in
    if leb cost rem
    then (record l { budgets = HashMap.insert agent (rem - cost) entered }, true)
    else (record l { budgets = entered }, false)

unfoldable pub settle :
    AgentId → PredId → List Ranked → Ledger × Bool → Ledger × Result (List Ranked)
settle agent pred out (l, true) =
    (record_access l agent read 0 pred allowed (total_tokens out), ok out)
settle agent pred out (l, false) =
    (record_access l agent read 0 pred denied (total_tokens out), err is_denied)

-- The debit and the audit entry of a query over the rows that it may return.
unfoldable pub charge : Ledger → AgentId → PredId → List Ranked → Ledger × Result (List Ranked)
unfolding try_spend settle
charge l agent pred out = settle agent pred out (try_spend l agent (total_tokens out))

module _ (policy : Policy) where
  -- `get`, from what the truth gave.
  read_grain : Ledger → AgentId → Sid → PredId → Grain → Ledger × Option Grain
  read_grain l agent sid pred g =
      let d = policy agent read (record { sid = sid; pred = pred; category = category_of g }) in
      elim d [
        | denied ↦ (record_access l agent read sid pred denied 0, none)
        | masked ↦
            (record_access l agent read sid pred masked (grain_tokens (redact g)), some (redact g))
        | allowed ↦ (record_access l agent read sid pred allowed (grain_tokens g), some g)
      ]

  read_found :
      Ledger → AgentId → Sid → PredId → Result (Option Grain) → Ledger × Result (Option Grain)
  unfolding read_grain
  read_found l agent sid pred (err x) = (l, err x)
  read_found l agent sid pred (ok none) = (l, ok none)
  read_found l agent sid pred (ok (some g)) =
      let (after, shown) = read_grain l agent sid pred g in (after, ok shown)

  -- The loop over the ranked rows: what the agent may see of them.
  unfoldable pub govern_rows : AgentId → PredId → List Ranked → List Ranked
  govern_rows agent pred [] = []
  govern_rows agent pred (r ∷ rows) =
      let rest = govern_rows agent pred rows in
      elim (policy agent read (target_of pred r.grain)) [
        | denied ↦ rest
        | masked ↦ record r { grain = redact r.grain } ∷ rest
        | allowed ↦ r ∷ rest
      ]

  module _ (v : VectorIndex) where
    pub record GovernedEngine : Type 0 where
      pub inner : GrainEngine v
      pub ledger : Ledger

    first_byte : List ℕ → Option ℕ
    first_byte [] = none
    first_byte (b ∷ _) = some b

    through : Ledger → GrainEngine v × Result Hlc → GovernedEngine × Result Hlc
    through l (inner, answer) = (record { inner = inner; ledger = l }, answer)

    unfoldable pub put_vector :
        GovernedEngine
        → AgentId
        → Sid
        → PredId
        → List ℕ
        → List ℕ
        → WriteMeta
        → WriteEnd
        → GovernedEngine × Result Hlc
    unfolding through first_byte
    put_vector e agent sid pred header vector meta end =
        let d =
          policy agent write (record { sid = sid; pred = pred; category = first_byte header }) in
        let l = record_access e.ledger agent write sid pred d 0 in
        let passed = through l (Engine.put_vector v e.inner sid pred header vector meta end) in
        elim d [ denied ↦ (record e { ledger = l }, err is_denied) | _ ↦ passed ]

    unfoldable pub get :
        GovernedEngine → AgentId → Sid → PredId → GovernedEngine × Result (Option Grain)
    unfolding read_found
    get e agent sid pred =
        let (after, shown) =
          read_found e.ledger agent sid pred (Truth.get e.inner.truth sid pred strong) in
        (record e { ledger = after }, shown)

    module _ (f : Float64) where
      charged :
          GovernedEngine
          → AgentId
          → PredId
          → Result (List Ranked × Plan f)
          → GovernedEngine × Result (List Ranked × Plan f)
      charged e agent pred (err x) = (e, err x)
      charged e agent pred (ok (ranked, plan)) =
          let (after, rows) = charge e.ledger agent pred (govern_rows agent pred ranked) in
          (record e { ledger = after }, elim rows [ err x ↦ err x | ok out ↦ ok (out, plan) ])

      unfoldable pub query_planned :
          GovernedEngine
          → AgentId
          → PredId
          → List ℕ
          → Filter
          → ℕ
          → f.Real
          → Option (GovernedEngine × Result (List Ranked × Plan f))
      unfolding charged
      query_planned e agent pred query filter k target_recall =
          Panic.◌>>=◌ (Engine.query_planned v f e.inner pred query filter k target_recall)
            λ answer. some (charged e agent pred answer)
