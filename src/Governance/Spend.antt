-- ===== src/Governance/Spend.antt =====
-- The token budgets over a sequence of governed queries.
use grainstore.Base.{
  ℕ, ◌+◌, ◌-◌, ◌≡◌, refl, ap, ◌∙◌, List, Option-cases, inl, inr, [], ◌∷◌, Bool, true, false, ◌==◌,
  if◌then◌else◌, arith,
}
use grainstore.Base.HashMap
use grainstore.Base.HashMap.{get-insert, or_insert, or_insert_absent}
use grainstore.Disclosure.{total_tokens}
use grainstore.Error.{Result, ok, err}
use grainstore.Governance.{AgentId}
use grainstore.Governance.Governed.{
  Ledger, charge, settle, try_spend, remaining_budget, record_access,
}
use grainstore.Model.{PredId}
use grainstore.Query.{Ranked}

-- The rows that a governed query of an agent may return.
pub record Request : Type 0 where
  pub agent : AgentId
  pub pred : PredId
  pub rows : List Ranked

-- The tokens that an answer hands out.
pub returned : Result (List Ranked) → ℕ
returned (ok out) = total_tokens out
returned (err _) = 0

-- The ledger after the queries, and the tokens that they returned to agent `a`.
pub charge_all : AgentId → Ledger → List Request → Ledger × ℕ
charge_all a l [] = (l, 0)
charge_all a l (q ∷ qs) =
    let (next, answer) = charge l q.agent q.pred q.rows in
    let (last, later) = charge_all a next qs in
    (last, (if q.agent == a then returned answer else 0) + later)

get-entered :
    (l : Ledger) (agent a : AgentId)
    → remaining_budget (record l { budgets = or_insert agent l.default_budget l.budgets }) a
      ≡ remaining_budget l a
unfolding remaining_budget or_insert
get-entered l agent a = elim (Option-cases (HashMap.get agent l.budgets)) [
  | inl absent ↦ ground (arith, get-insert agent a l.default_budget l.budgets, absent)
  | inr (n, there) ↦ ground (arith, there)
]

remaining-insert :
    (l : Ledger) (agent a : AgentId) (n : ℕ) (m : List (ℕ × ℕ))
    → remaining_budget (record l { budgets = m }) a ≡ remaining_budget l a
    → remaining_budget (record l { budgets = HashMap.insert agent n m }) a
      ≡ (if agent == a then n else remaining_budget l a)
unfolding remaining_budget
remaining-insert l agent a n m h = ground (arith, get-insert agent a n m, h)

-- One debit: what it takes and what is left make up what was there.
remaining-try_spend :
    (l : Ledger) (agent a : AgentId) (cost : ℕ)
    → (if agent == a then if (try_spend l agent cost).1 then cost else 0 else 0)
        + remaining_budget ((try_spend l agent cost).0) a
      ≡ remaining_budget l a
unfolding try_spend
remaining-try_spend l agent a cost =
    let entered = or_insert agent l.default_budget l.budgets in
    let same = get-entered l agent a in
    let debited = remaining-insert l agent a (remaining_budget l agent - cost) entered same in
    let equal : (agent ≡ a → remaining_budget l agent ≡ remaining_budget l a) =
      λ eq. ap (remaining_budget l) eq in
    ground (arith, same, debited, equal)

settle-remaining :
    (agent a : AgentId) (pred : PredId) (out : List Ranked) (s : Ledger × Bool)
    → (if agent == a then returned ((settle agent pred out s).1) else 0)
        + remaining_budget ((settle agent pred out s).0) a
      ≡ (if agent == a then if s.1 then total_tokens out else 0 else 0) + remaining_budget (s.0) a
unfolding settle returned remaining_budget record_access
settle-remaining agent a pred out (l, true) = refl
settle-remaining agent a pred out (l, false) = refl

charge-remaining :
    (a : AgentId) (l : Ledger) (q : Request)
    → (if q.agent == a then returned ((charge l q.agent q.pred q.rows).1) else 0)
        + remaining_budget ((charge l q.agent q.pred q.rows).0) a
      ≡ remaining_budget l a
unfolding charge
charge-remaining a l q =
    settle-remaining q.agent a q.pred q.rows (try_spend l q.agent (total_tokens q.rows))
    ∙ remaining-try_spend l q.agent a (total_tokens q.rows)

-- Whatever the queries of all agents and their order, what they returned to an agent and what is left
-- of its budget add up to the budget before them: the budget is never exceeded.
pub charge_all-remaining :
    (a : AgentId) (l : Ledger) (qs : List Request)
    → (charge_all a l qs).1 + remaining_budget ((charge_all a l qs).0) a ≡ remaining_budget l a
unfolding charge_all
charge_all-remaining a l [] = omega arith
charge_all-remaining a l (q ∷ qs) =
    ground (
      arith,
      charge-remaining a l q,
      charge_all-remaining a ((charge l q.agent q.pred q.rows).0) qs,
    )
