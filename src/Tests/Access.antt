-- ===== src/Tests/Access.antt =====
-- Governed access and staged answers, at concrete inputs.
use grainstore.Base.{
  ℕ, ◌+◌, ◌<◌, ◌≤◌, ◌≡◌, ◌⊎◌, refl, List, [], ◌∷◌, All, none, some, true, length, arith,
}
use grainstore.Catalog
use grainstore.Disclosure.{full, ContinuationCache, build_summary, total_tokens}
use grainstore.Disclosure.Cache.{IsCache}
use grainstore.Disclosure.Spread.{build_summary_bounds}
use grainstore.Float.{is_nan, value_rank}
use grainstore.Engine.{GrainEngine, Stage, query_planned, query_staged, drill}
use grainstore.Engine.Staged.{handle_of, drill-query_staged}
use grainstore.Error.{Result, ok}
use grainstore.Governance
use grainstore.Governance.{
  Action, read, Decision, allowed, masked, denied, GrainRef, any, category_is, deny_it, mask_it,
  allow_it, RuleSet, allow, deny, mask, authorize,
}
use grainstore.Governance.Governed
use grainstore.Governance.Governed.{Policy, Ledger, remaining_budget, charge}
use grainstore.Governance.Policy.{precedence, some_rule, authorize-precedence}
use grainstore.Governance.Spend.{Request, charge_all, charge_all-remaining}
use grainstore.Model.{bytes}
use grainstore.Planner
use grainstore.Planner.{plan, eval}
use grainstore.Query.{Ranked, near_join_select}
use grainstore.Bytes.{bytes_cmp, be_bytes, from_be_bytes, starts_with}
use grainstore.Keys.{grain_key, seek_target, not_u64, grain_prefix, t_tx_from_key}
use grainstore.Kv.{seek_ge}
use grainstore.Sort.{sort_by}
use grainstore.Truth.{get, get_at}
use grainstore.Wal.{encode_value, decode_value}
use grainstore.Tests.Blocks
use grainstore.Tests.Index.{whole, fixed_index, candidates, one_grain, answers}

-- Agent 1 may read all but category 9, which is added first.
abbrev rules : RuleSet
rules = allow (mask (deny Governance.new 1 read (category_is 9)) 1 (category_is 4)) 1 read any

abbrev secret : GrainRef
secret = record { sid = 2; pred = 0; category = some 9 }

authorize-precedence_example :
    authorize rules 1 read secret
    ≡ precedence read
        (some_rule deny_it 1 read secret rules)
        (some_rule mask_it 1 read secret rules)
        (some_rule allow_it 1 read secret rules)
authorize-precedence_example = authorize-precedence rules 1 read secret

abbrev row : ℕ → Ranked
row sid = record {
  grain = record { sid = sid; pred = 1; val = bytes (sid ∷ 10 ∷ []); c = 0; t_valid = 0; t_tx = 1 };
  dist = 5;
}

abbrev rows : List Ranked
rows = row 9 ∷ row 4 ∷ row 2 ∷ []

-- The denied row is another one, and the masked row has another value.
abbrev other_rows : List Ranked
other_rows =
    record (row 9) { dist = 8 }
    ∷ record (row 4) { grain = record ((row 4).grain) { val = bytes (4 ∷ 77 ∷ []) } }
    ∷ row 2
    ∷ []

abbrev requests : List Request
requests =
    record { agent = 1; pred = 1; rows = rows } ∷ record { agent = 1; pred = 1; rows = rows } ∷ []

charge_all-remaining_example :
    (charge_all 1 (Governed.new 30) requests).1
      + remaining_budget (charge_all 1 (Governed.new 30) requests).0 1
    ≡ remaining_budget (Governed.new 30) 1
charge_all-remaining_example = charge_all-remaining 1 (Governed.new 30) requests

abbrev small : ContinuationCache
small = record { entries = (1, record { ranked = []; full_tokens = 0 }) ∷ []; next = 2; cap = 1 }

small-IsCache : IsCache small
small-IsCache = record { below = (omega arith, tt); room = omega arith; bounded = omega arith }

build_summary_bounds_example :
    let s = build_summary Blocks.whole rows 1 in
    All
      (λ r.
        (value_rank s.dist_min ≤ value_rank r.dist) × (value_rank r.dist ≤ value_rank s.dist_max))
      rows
    × (0 < length rows
        → (value_rank s.dist_min ≤ value_rank s.dist_median)
          × (value_rank s.dist_median ≤ value_rank s.dist_max))
    × ((is_nan s.sharpness ≡ true)
        ⊎ ((value_rank 0 ≤ value_rank s.sharpness)
            × (value_rank s.sharpness ≤ value_rank 0x3f800000)))
build_summary_bounds_example = build_summary_bounds Blocks.whole rows 1 (refl, (refl, (refl, tt)))

abbrev engine : GrainEngine fixed_index
engine = record {
  truth = one_grain;
  index = candidates;
  catalog = Catalog.new;
  continuations = small;
}

found :
    query_planned fixed_index whole engine 1 [] Planner.any 3 9
    ≡ some (ok (answers, plan whole 1 3 9))
unfolding query_planned near_join_select get get_at seek_ge bytes_cmp grain_key be_bytes seek_target
    not_u64 starts_with grain_prefix decode_value encode_value sort_by from_be_bytes t_tx_from_key
    plan eval
found = refl

drill-query_staged_example :
    (after : GrainEngine fixed_index) × (answer : Result (Stage fixed_index whole)) × (query_staged
        fixed_index whole Blocks.whole engine 1 [] Planner.any 3 9 1
      ≡ some (after, answer))
    × (handle_of fixed_index whole answer ≡ some 2)
    × ((drill fixed_index whole after 2
          ≡ some (record {
            stage_index = 1;
            stage = full answers;
            est_tokens = total_tokens answers;
            continuation = none;
          }))
        × IsCache after.continuations)
drill-query_staged_example =
    drill-query_staged fixed_index whole Blocks.whole engine 1 [] Planner.any 3 9 1 answers
      (plan whole 1 3 9) small-IsCache found
