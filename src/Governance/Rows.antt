-- ===== src/Governance/Rows.antt =====
-- What a governed query lets through of the rows that were found.
use mathlib.Core.List.{Mem}
use grainstore.Base.{ℕ, ◌≡◌, List, [], ◌∷◌, ◌⊎◌, Bool, true, false, if◌then◌else◌}
use grainstore.Base.Codes.{codes}
use grainstore.Governance.{AgentId, read, Decision, allowed, masked, denied}
use grainstore.Governance.Governed.{Policy, target_of}
use grainstore.Model.{PredId, bytes}
use grainstore.Query.{Ranked}

-- The two rows look the same to an agent that may see nothing but what the decision lets through: they
-- are the same where it allows; where it masks they differ in their values only; and where it denies
-- they may differ in everything.
abbrev pub Alike : Decision → Ranked → Ranked → Type 0
Alike allowed r s = r ≡ s
Alike masked r s =
    (r.grain.sid ≡ s.grain.sid)
    × (r.grain.pred ≡ s.grain.pred)
    × (r.grain.c ≡ s.grain.c)
    × (r.grain.t_valid ≡ s.grain.t_valid)
    × (r.grain.t_tx ≡ s.grain.t_tx)
    × (r.dist ≡ s.dist)
Alike denied r s = Unit

module _ (policy : Policy) (agent : AgentId) (pred : PredId) where
  abbrev pub decision : Ranked → Decision
  decision r = policy agent read (target_of pred r.grain)

  -- Rows that are decided on alike, and look the same one by one.
  pub data AllAlike : List Ranked → List Ranked → Type 0 where
    no_rows : AllAlike [] []
    one_more :
        (r s : Ranked) (rows others : List Ranked)
        → decision r ≡ decision s
        → Alike (decision r) r s
        → AllAlike rows others
        → AllAlike (r ∷ rows) (s ∷ others)

  -- A row that is shown is a row that was found and that the policy allows, or says "[REDACTED]".
  abbrev pub IsShown : List Ranked → Ranked → Type 0
  IsShown rows r =
      (Mem r rows × (decision r ≡ allowed)) ⊎ (r.grain.val ≡ bytes (codes "[REDACTED]"))

  abbrev readable : Decision → Bool
  readable denied = false
  readable _ = true

  -- The sids of the rows that are not denied.
  unfoldable pub readable_sids : List Ranked → List ℕ
  readable_sids [] = []
  readable_sids (r ∷ rows) =
      let rest = readable_sids rows in if readable (decision r) then r.grain.sid ∷ rest else rest
