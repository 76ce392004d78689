-- ===== src/Governance/Policy.antt =====
-- What a rule set decides, without the order of its rules: some rule in force denies, else masks a
-- read, else allows, and otherwise nothing is permitted.
use grainstore.Base.{◌≡◌, refl, List, [], ◌∷◌, Bool, true, false, ◌&&◌, ◌||◌, if◌then◌else◌}
use grainstore.Governance.{
  AgentId, Action, Decision, allowed, masked, denied, GrainRef, Effect, allow_it, deny_it, mask_it,
  Rule, RuleSet, applies, is_read, after_rules, authorize_loop, authorize,
}

-- Is this a rule with that effect?
abbrev pub has_effect : Effect → Effect → Bool
has_effect allow_it allow_it = true
has_effect deny_it deny_it = true
has_effect mask_it mask_it = true
has_effect _ _ = false

-- Is a rule with this effect in force?
pub some_rule : Effect → AgentId → Action → GrainRef → RuleSet → Bool
some_rule e agent action target [] = false
some_rule e agent action target (r ∷ rules) =
    (applies agent action target r && has_effect r.effect e)
    || some_rule e agent action target rules

-- The decision that the rules call for together.
pub precedence : Action → Bool → Bool → Bool → Decision
precedence action denies hides grants =
    if denies
    then denied
    else if hides && is_read action
    then masked
    else if grants
    then allowed
    else denied

or_true : (b : Bool) → (b || true) ≡ true
or_true true = refl
or_true false = refl

-- One rule, with what the loop gives on each way on.
precedence_rule :
    (fires : Bool) (e : Effect) (action : Action) (may hide denies hides grants : Bool)
    (granted hidden skipped : Decision)
    → granted ≡ precedence action denies (hide || hides) true
    → hidden ≡ precedence action denies true (may || grants)
    → skipped ≡ precedence action denies (hide || hides) (may || grants)
    → (if fires
        then elim e as (λ _. Decision) [ deny_it ↦ denied | mask_it ↦ hidden | allow_it ↦ granted ]
        else skipped)
      ≡ precedence action
          ((fires && has_effect e deny_it) || denies)
          (hide || ((fires && has_effect e mask_it) || hides))
          (may || ((fires && has_effect e allow_it) || grants))
unfolding precedence
precedence_rule false e action may hide denies hides grants _ _ _ g h s = s
precedence_rule true allow_it action may hide denies hides grants _ _ _ g h s = rw (or_true may) g
precedence_rule true mask_it action may hide denies hides grants _ _ _ g h s = rw (or_true hide) h
precedence_rule true deny_it action may hide denies hides grants _ _ _ g h s = refl

authorize_loop_lem :
    (agent : AgentId) (action : Action) (target : GrainRef) (may hide : Bool) (rules : List Rule)
    → authorize_loop agent action target may hide rules
      ≡ precedence action
          (some_rule deny_it agent action target rules)
          (hide || some_rule mask_it agent action target rules)
          (may || some_rule allow_it agent action target rules)
unfolding authorize_loop some_rule precedence after_rules
authorize_loop_lem agent action target true true [] = refl
authorize_loop_lem agent action target true false [] = refl
authorize_loop_lem agent action target false true [] = refl
authorize_loop_lem agent action target false false [] = refl
authorize_loop_lem agent action target may hide (r ∷ rules) =
    precedence_rule (applies agent action target r) r.effect action may hide
      (some_rule deny_it agent action target rules) (some_rule mask_it agent action target rules)
      (some_rule allow_it agent action target rules) _ _ _
      (authorize_loop_lem agent action target true hide rules)
      (authorize_loop_lem agent action target may true rules)
      (authorize_loop_lem agent action target may hide rules)

-- A deny in force wins, then a mask on a read, then an allow, wherever the rules stand in the set;
-- without any of them the answer is a denial.
pub authorize-precedence :
    (rules : RuleSet) (agent : AgentId) (action : Action) (target : GrainRef)
    → authorize rules agent action target
      ≡ precedence action
          (some_rule deny_it agent action target rules)
          (some_rule mask_it agent action target rules)
          (some_rule allow_it agent action target rules)
unfolding authorize
authorize-precedence rules agent action target =
    authorize_loop_lem agent action target false false rules
