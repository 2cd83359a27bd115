-- ===== src/Store/Tests.antt =====
-- Runs of internal/store, and the theorems at concrete inputs.
use anix_ops_sd_wan.Base.{
  pos, str, ◌==◌, trim_space, digits, six_digits, Bool, true, false, ◌≡◌, refl, none, some, List,
  [], ◌∷◌, ok,
}
use anix_ops_sd_wan.Base.Sorting.{sort}
use anix_ops_sd_wan.Base.Table.{lookup, put, values}
use anix_ops_sd_wan.Net.Samples.{plain_net}
use anix_ops_sd_wan.Domain.{
  Tenant, Node, NodeHeartbeat, Inventory, validate_tenant, validate_node, validate_heartbeat,
}
use anix_ops_sd_wan.Policy.{Rule, Request, Decision, validate, check_cidr}
use anix_ops_sd_wan.Policy.Routing.{IsBestDecision}
use anix_ops_sd_wan.Store.{
  Memory, new_memory, inner, event_id, audit_locked, create_tenant, register_node, retire_node,
  upsert_policy_rule, record_node_heartbeat,
}
use anix_ops_sd_wan.Store.Reads.{evaluate_policy, inventory}
use anix_ops_sd_wan.Store.Calls.{
  Call, creates, adds_node, beats, retires, rules, tenant_of, call, run,
}
use anix_ops_sd_wan.Store.Journal.{log_of}
use anix_ops_sd_wan.Store.Numbering.{IsNumbered, IsDistinct, audit-IsNumbered}
use anix_ops_sd_wan.Store.Isolation.{ReadsSame, call_isolated}
use anix_ops_sd_wan.Store.Ownership.{IsRepository}
use anix_ops_sd_wan.Store.Integrity.{history-IsRepository}
use anix_ops_sd_wan.Store.Views.{evaluate_policy_decides}
use anix_ops_sd_wan.Store.Files.{FileRepository}
use anix_ops_sd_wan.Store.Nodes.{node_at}

abbrev first_tenant : Tenant
first_tenant = record { id = str "t1"; name = str "One"; created_at = 0 }

abbrev stored_tenant : Tenant
stored_tenant = record first_tenant { created_at = 5 }

abbrev hk_node : Node
hk_node = record {
  id = str "hk";
  tenant_id = str "t1";
  role = str "egress";
  region = str "asia";
  endpoint = str "hk:1";
  healthy = true;
  created_at = 0;
  updated_at = 0;
}

abbrev com_rule : Rule
com_rule = record {
  id = str "com";
  tenant_id = str "t1";
  priority = pos 10;
  domain_suffix = [];
  ip_cidr = [];
  asn = pos 7;
  class = [];
  egress_node_id = str "hk";
}

abbrev history : List Call
history =
    creates false first_tenant 5 6
    ∷ adds_node false hk_node 7 8
    ∷ rules false com_rule 9
    ∷ retires false (str "t2") (str "hk") 10 11
    ∷ []

abbrev beat : NodeHeartbeat
beat = record { tenant_id = str "t1"; node_id = str "hk"; healthy = false; endpoint = [] }

abbrev stored_node : Node
stored_node = record hk_node { created_at = 7; updated_at = 7 }

abbrev at_history : Memory
at_history = run plain_net new_memory history

first_id : event_id (str "t1") 1 ≡ str "t1-000001"
unfolding event_id six_digits digits
first_id = refl

late_id : event_id (str "t") 12345678 ≡ str "t-12345678"
unfolding event_id six_digits digits
late_id = refl

node_stored : node_at (str "t1") (str "hk") at_history ≡ some stored_node
unfolding run call create_tenant register_node upsert_policy_rule retire_node audit_locked
    validate_tenant validate_node validate check_cidr trim_space lookup put ◌==◌
node_stored = refl

-- What the definitions of a run need.
abbrev retired : Memory
retired = (call plain_net at_history (retires false (str "t1") (str "hk") 20 21)).0

retire_stored :
    retire_node at_history false (str "t1") (str "hk") 20 21
    ≡ ok (retired, record stored_node { healthy = false; updated_at = 20 })
unfolding run call create_tenant register_node upsert_policy_rule retire_node audit_locked
    validate_tenant validate_node validate check_cidr trim_space lookup put ◌==◌
retire_stored = refl

beaten : Memory
beaten = (call plain_net at_history (beats false beat 22 23)).0

beat_stored :
    record_node_heartbeat at_history false beat 22 23
    ≡ ok (beaten, record stored_node { healthy = false; updated_at = 22 })
unfolding beaten run call create_tenant register_node upsert_policy_rule retire_node
    record_node_heartbeat audit_locked validate_heartbeat validate_tenant validate_node validate
    check_cidr trim_space lookup put ◌==◌
beat_stored = refl

tenant_stored : lookup (str "t1") at_history.tenants ≡ some stored_tenant
unfolding run call create_tenant register_node upsert_policy_rule retire_node audit_locked
    validate_tenant validate_node validate check_cidr trim_space lookup put ◌==◌
tenant_stored = refl

abbrev asn_request : Request
asn_request = record { tenant_id = str "t1"; domain = []; ip = []; asn = pos 7; class = [] }

abbrev listing : Inventory
listing = record { tenant = stored_tenant; devices = []; nodes = stored_node ∷ [] }

listing_stored : inventory at_history false (str "t1") ≡ ok listing
unfolding inventory run call create_tenant register_node upsert_policy_rule retire_node audit_locked
    validate_tenant validate_node validate check_cidr trim_space lookup put sort ◌==◌
listing_stored = refl

audit-IsNumbered_example :
    IsNumbered (str "t1") 0 (log_of (str "t1") at_history)
    × IsDistinct (log_of (str "t1") at_history)
audit-IsNumbered_example = audit-IsNumbered plain_net history (str "t1") (tt, (tt, (tt, (tt, tt))))

call_isolated_example :
    ReadsSame plain_net
      (str "t2")
      false
      at_history
      (call plain_net at_history (beats false beat 22 23)).0
call_isolated_example =
    call_isolated plain_net at_history (beats false beat 22 23) (str "t2") false
      (unfold tenant_of ◌==◌ in refl)

history-IsRepository_example : IsRepository plain_net at_history
history-IsRepository_example = history-IsRepository plain_net history

evaluate_policy_decides_example :
    (d : Decision) × (evaluate_policy plain_net at_history false asn_request ≡ ok d)
    × IsBestDecision plain_net (values (inner (str "t1") at_history.policies)) asn_request d
evaluate_policy_decides_example =
    evaluate_policy_decides plain_net history asn_request stored_tenant tenant_stored

-- The save of the node fails.
abbrev file_calls : List (Call × Bool)
file_calls = (creates false first_tenant 5 6, false) ∷ (adds_node false hk_node 7 8, true) ∷ []

abbrev fresh_repository : FileRepository
fresh_repository = record { memory = new_memory; file = none }
