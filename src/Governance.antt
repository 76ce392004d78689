-- ===== src/Governance.antt =====
-- src/governance.rs: the rules and what they decide. `Governance.Governed` has the governed engine.
pub mod Policy
pub mod Rows
pub mod Governed
pub mod Spend
use grainstore.Base.{
  ℕ, List, [], ◌∷◌, ◌++◌, Option, none, some, Bool, true, false, ◌==◌, ◌&&◌, if◌then◌else◌,
}
use grainstore.Model.{Sid, PredId}

-- `AgentId`, by its number
abbrev pub AgentId : Type 0
AgentId = ℕ

pub data Action : Type 0 where
  read write delete : Action

pub data Decision : Type 0 where
  allowed masked denied : Decision

pub record GrainRef : Type 0 where
  pub sid : Sid
  pub pred : PredId
  pub category : Option ℕ

pub data Match : Type 0 where
  any : Match
  category_is : ℕ → Match
  pred_is : PredId → Match

pub data Effect : Type 0 where
  allow_it deny_it mask_it : Effect

pub record Rule : Type 0 where
  pub agent : AgentId
  pub action : Option Action
  pub effect : Effect
  pub matcher : Match

-- `a == b` on `Action`
same_action : Action → Action → Bool
same_action read read = true
same_action write write = true
same_action delete delete = true
same_action _ _ = false

-- `target.category == Some(c)`
has_category : Option ℕ → ℕ → Bool
has_category none c = false
has_category (some d) c = d == c

unfoldable pub matches : Match → GrainRef → Bool
unfolding has_category
matches any t = true
matches (category_is c) t = has_category t.category c
matches (pred_is p) t = t.pred == p

unfoldable pub action_matches : Option Action → Action → Bool
unfolding same_action
action_matches none action = true
action_matches (some a) action = same_action a action

unfoldable pub is_read : Action → Bool
unfolding same_action
is_read action = same_action action read

-- RuleSet: the rules in the order in which they were added
abbrev pub RuleSet : Type 0
RuleSet = List Rule

abbrev pub new : RuleSet
new = []

unfoldable pub allow : RuleSet → AgentId → Action → Match → RuleSet
allow rules agent action on =
    rules ++ (record { agent = agent; action = some action; effect = allow_it; matcher = on } ∷ [])

unfoldable pub deny : RuleSet → AgentId → Action → Match → RuleSet
deny rules agent action on =
    rules ++ (record { agent = agent; action = some action; effect = deny_it; matcher = on } ∷ [])

unfoldable pub mask : RuleSet → AgentId → Match → RuleSet
mask rules agent on =
    rules ++ (record { agent = agent; action = some read; effect = mask_it; matcher = on } ∷ [])

-- The three `continue`s of the loop.
unfoldable pub applies : AgentId → Action → GrainRef → Rule → Bool
unfolding action_matches matches
applies agent action target r =
    r.agent == agent && action_matches r.action action && matches r.matcher target

-- What the loop decides after the last rule.
unfoldable pub after_rules : Action → Bool → Bool → Decision
unfolding is_read
after_rules action may hide =
    if hide && is_read action then masked else if may then allowed else denied

-- The loop of `authorize`, with its `allow` and `mask`.
unfoldable pub authorize_loop : AgentId → Action → GrainRef → Bool → Bool → List Rule → Decision
unfolding applies after_rules
authorize_loop agent action target may hide [] = after_rules action may hide
authorize_loop agent action target may hide (r ∷ rules) =
    let skipped = authorize_loop agent action target may hide rules in
    let hidden = authorize_loop agent action target may true rules in
    let granted = authorize_loop agent action target true hide rules in
    if applies agent action target r
    then elim (r.effect) [ deny_it ↦ denied | mask_it ↦ hidden | allow_it ↦ granted ]
    else skipped

-- Policy::authorize of a RuleSet
unfoldable pub authorize : RuleSet → AgentId → Action → GrainRef → Decision
unfolding authorize_loop
authorize rules agent action target = authorize_loop agent action target false false rules
