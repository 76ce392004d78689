-- ===== src/Cdc.antt =====
-- src/cdc.rs: the change stream. A channel is the list of the records sent so far; its receiver
-- hangs up by being dropped, and a send to it then fails.
pub mod Delivery
use grainstore.Base.{
  ℕ, List, [], ◌∷◌, ◌++◌, Bool, true, false, foldl, length, ◌≡◌, refl, append-nil, append_assoc,
  sym, ap, ◌∙◌, arith, ◌==◌, if◌then◌else◌,
}

pub record CdcRecord : Type 0 where
  pub sid : ℕ
  pub pred : ℕ
  pub seq : ℕ
  pub op : ℕ
  pub val : List ℕ

unfoldable pub is_delete : CdcRecord → Bool
is_delete r = r.op == 1

-- A subscriber's channel.
pub record Channel : Type 0 where
  pub live : Bool
  pub sent : List CdcRecord

abbrev pub CdcPublisher : Type 0
CdcPublisher = List Channel

abbrev pub new : CdcPublisher
new = []

unfoldable pub subscribe : CdcPublisher → CdcPublisher
subscribe subs = subs ++ (record { live = true; sent = [] } ∷ [])

-- `subs.retain(|s| s.send(rec.clone()).is_ok())`
unfoldable pub publish : CdcPublisher → CdcRecord → CdcPublisher
publish [] rec = []
publish (s ∷ subs) rec =
    let rest = publish subs rec in
    if s.live then record s { sent = s.sent ++ (rec ∷ []) } ∷ rest else rest

unfoldable pub subscriber_count : CdcPublisher → ℕ
subscriber_count subs = length subs

unfoldable pub publish_all : CdcPublisher → List CdcRecord → CdcPublisher
unfolding publish
publish_all = foldl publish
