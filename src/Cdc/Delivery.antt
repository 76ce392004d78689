-- ===== src/Cdc/Delivery.antt =====
-- What the subscribers have received after the committer has published a batch.
use grainstore.Base.{List, [], ◌∷◌, ◌++◌, ◌≡◌, refl, append_assoc, ◌∙◌, arith, if◌then◌else◌}
use grainstore.Cdc.{CdcPublisher, CdcRecord, publish, publish_all}

-- The live channels, each with `more` behind what it got before.
pub delivered : CdcPublisher → List CdcRecord → CdcPublisher
delivered [] more = []
delivered (s ∷ subs) more =
    let rest = delivered subs more in
    if s.live then record s { sent = s.sent ++ more } ∷ rest else rest

delivered-publish :
    (subs : CdcPublisher) (rec : CdcRecord) (more : List CdcRecord)
    → delivered (publish subs rec) more ≡ delivered subs (rec ∷ more)
unfolding delivered publish
delivered-publish [] rec more = refl
delivered-publish (s ∷ subs) rec more =
    ground (arith, delivered-publish subs rec more, append_assoc s.sent (rec ∷ []) more)

publish-delivered :
    (subs : CdcPublisher) (rec : CdcRecord) → publish subs rec ≡ delivered subs (rec ∷ [])
unfolding delivered publish
publish-delivered [] rec = refl
publish-delivered (s ∷ subs) rec = ground (arith, publish-delivered subs rec)

-- Publishing one record or more hands all of them, in order and once, to every subscriber that is
-- live, behind what it had, and drops the subscribers that have hung up.
pub publish_all-delivered :
    (subs : CdcPublisher) (rec : CdcRecord) (recs : List CdcRecord)
    → publish_all subs (rec ∷ recs) ≡ delivered subs (rec ∷ recs)
unfolding publish_all
publish_all-delivered subs rec [] = publish-delivered subs rec
publish_all-delivered subs rec (r ∷ rs) =
    publish_all-delivered (publish subs rec) r rs ∙ delivered-publish subs rec (r ∷ rs)
