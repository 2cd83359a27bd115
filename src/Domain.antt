-- ===== src/Domain.antt =====
-- internal/domain/types.go: tenants, devices, nodes, configurations and audit events, and what
-- Validate refuses. The kinds and roles are strings in the source and any is accepted.
pub mod Selection
use anix_ops_sd_wan.Base.{ℕ, Text, ◌==◌, is_blank, Bool, List, [], Outcome, ◌>>◌, reject}
use anix_ops_sd_wan.Base.Table.{Table}

pub data DomainError : Type 0 where
  tenant_id_required tenant_name_required : DomainError
  device_id_required device_tenant_required device_kind_required device_name_required : DomainError
  node_id_required node_tenant_required node_role_required node_region_required : DomainError
  heartbeat_tenant_required heartbeat_node_required : DomainError
  audit_id_required audit_tenant_required audit_action_required : DomainError
  audit_object_type_required audit_object_id_required : DomainError
  config_id_required config_tenant_required config_target_required : DomainError
  config_version_required : DomainError

pub record Tenant : Type 0 where
  pub id : Text
  pub name : Text
  pub created_at : ℕ

unfoldable pub validate_tenant : Tenant → Outcome DomainError (Unit {0})
validate_tenant t = do
  reject (is_blank t.id) tenant_id_required
  reject (is_blank t.name) tenant_name_required

pub record Device : Type 0 where
  pub id : Text
  pub tenant_id : Text
  pub site_id : Text
  pub kind : Text
  pub name : Text
  pub platform : Text
  pub status : Text
  pub config_version : Text
  pub created_at : ℕ
  pub updated_at : ℕ

unfoldable pub validate_device : Device → Outcome DomainError (Unit {0})
validate_device d = do
  reject (is_blank d.id) device_id_required
  reject (is_blank d.tenant_id) device_tenant_required
  reject (d.kind == []) device_kind_required
  reject (is_blank d.name) device_name_required

pub record Node : Type 0 where
  pub id : Text
  pub tenant_id : Text
  pub role : Text
  pub region : Text
  pub endpoint : Text
  pub healthy : Bool
  pub created_at : ℕ
  pub updated_at : ℕ

unfoldable pub validate_node : Node → Outcome DomainError (Unit {0})
validate_node n = do
  reject (is_blank n.id) node_id_required
  reject (is_blank n.tenant_id) node_tenant_required
  reject (n.role == []) node_role_required
  reject (is_blank n.region) node_region_required

pub record NodeHeartbeat : Type 0 where
  pub tenant_id : Text
  pub node_id : Text
  pub healthy : Bool
  pub endpoint : Text

unfoldable pub validate_heartbeat : NodeHeartbeat → Outcome DomainError (Unit {0})
validate_heartbeat h = do
  reject (is_blank h.tenant_id) heartbeat_tenant_required
  reject (is_blank h.node_id) heartbeat_node_required

pub record AuditEvent : Type 0 where
  pub id : Text
  pub tenant_id : Text
  pub actor : Text
  pub action : Text
  pub object_type : Text
  pub object_id : Text
  pub message : Text
  pub created_at : ℕ

unfoldable pub validate_event : AuditEvent → Outcome DomainError (Unit {0})
validate_event e = do
  reject (is_blank e.id) audit_id_required
  reject (is_blank e.tenant_id) audit_tenant_required
  reject (is_blank e.action) audit_action_required
  reject (is_blank e.object_type) audit_object_type_required
  reject (is_blank e.object_id) audit_object_id_required

pub record Inventory : Type 0 where
  pub tenant : Tenant
  pub devices : List Device
  pub nodes : List Node

-- A nil map of values is an empty one.
pub record ConfigBundle : Type 0 where
  pub id : Text
  pub tenant_id : Text
  pub target_id : Text
  pub version : Text
  pub values : Table Text
  pub created_at : ℕ

unfoldable pub validate_config : ConfigBundle → Outcome DomainError (Unit {0})
validate_config c = do
  reject (is_blank c.id) config_id_required
  reject (is_blank c.tenant_id) config_tenant_required
  reject (is_blank c.target_id) config_target_required
  reject (is_blank c.version) config_version_required
