-- ===== src/Application/Orchestrator/Order.antt =====
-- The order of a report, as the order of the keys that it compares.
use shingan.Prelude.{
  ℕ, String, Bool, true, false, ◌==◌, eq_iff, ◌≡◌, ltb, nat_eq, arith, if◌then◌else◌,
}
use shingan.Prelude.Text.{str_ltb, str_ltb-IsOrder}
use shingan.Prelude.Sort.{IsOrder}
use shingan.Domain.Finding.{Finding, rank}
use shingan.Application.Orchestrator.{finding_less}

pub record Key : Type 0 where
  pub severity : ℕ
  pub confidence : ℕ
  pub rule_name : String
  pub source_file : String
  pub node_id : String

abbrev pub key : Finding → Key
key f = record {
  severity = rank f.severity;
  confidence = f.confidence;
  rule_name = f.rule_name;
  source_file = f.source_file;
  node_id = f.node_id;
}

-- Severity and confidence descending, then the names ascending.
abbrev pub names_less : Key → Key → Bool
names_less a b =
    if a.rule_name == b.rule_name
    then if a.source_file == b.source_file
      then str_ltb a.node_id b.node_id
      else str_ltb a.source_file b.source_file
    else str_ltb a.rule_name b.rule_name

unfoldable pub key_less : Key → Key → Bool
key_less a b =
    if nat_eq a.severity b.severity
    then if nat_eq a.confidence b.confidence then names_less a b else ltb b.confidence a.confidence
    else ltb b.severity a.severity

pub finding-key : (a b : Finding) → finding_less a b ≡ key_less (key a) (key b)
unfolding finding_less key_less
finding-key a b = ground arith

module _ (a b : Key) where
  key_asym : key_less a b ≡ true → key_less b a ≡ false
  unfolding key_less
  key_asym = ground (
    arith,
    str_ltb-IsOrder.asym a.rule_name b.rule_name,
    str_ltb-IsOrder.asym a.source_file b.source_file,
    str_ltb-IsOrder.asym a.node_id b.node_id,
    eq_iff a.rule_name b.rule_name,
    eq_iff b.rule_name a.rule_name,
    eq_iff a.source_file b.source_file,
    eq_iff b.source_file a.source_file,
  )

  key_connected : key_less a b ≡ false → key_less b a ≡ false → a ≡ b
  unfolding key_less
  key_connected = ground (
    arith,
    str_ltb-IsOrder.connected a.rule_name b.rule_name,
    str_ltb-IsOrder.connected a.source_file b.source_file,
    str_ltb-IsOrder.connected a.node_id b.node_id,
    eq_iff a.rule_name b.rule_name,
    eq_iff b.rule_name a.rule_name,
    eq_iff a.source_file b.source_file,
    eq_iff b.source_file a.source_file,
  )

names_trans : (a b c : Key) → names_less a b ≡ true → names_less b c ≡ true → names_less a c ≡ true
names_trans a b c = ground (
  arith,
  str_ltb-IsOrder.trans a.rule_name b.rule_name c.rule_name,
  str_ltb-IsOrder.trans a.source_file b.source_file c.source_file,
  str_ltb-IsOrder.trans a.node_id b.node_id c.node_id,
  str_ltb-IsOrder.asym a.rule_name b.rule_name,
  str_ltb-IsOrder.asym a.source_file b.source_file,
  eq_iff a.rule_name b.rule_name,
  eq_iff b.rule_name c.rule_name,
  eq_iff a.rule_name c.rule_name,
  eq_iff a.source_file b.source_file,
  eq_iff b.source_file c.source_file,
  eq_iff a.source_file c.source_file,
)

key_trans : (a b c : Key) → key_less a b ≡ true → key_less b c ≡ true → key_less a c ≡ true
unfolding key_less
key_trans a b c = ground (arith, names_trans a b c)

-- On keys the order is a strict total order.
pub key_less-IsOrder : IsOrder key_less
key_less-IsOrder = record { asym = key_asym; trans = key_trans; connected = key_connected }
