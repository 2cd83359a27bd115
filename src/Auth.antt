-- ===== src/Auth.antt =====
-- internal/auth: roles and the authorizer (rbac.go), and sessions (children, session.go).
pub mod Session
pub mod Access
pub mod Validity
pub mod Durability
mod Tests
use anix_ops_sd_wan.Base.{
  Text, str, ◌==◌, Bool, true, false, not, Option, none, some, List, [], ◌∷◌, if◌then◌else◌,
  Outcome, ok, err, ◌>>=◌, ◌>>◌, reject,
}
use anix_ops_sd_wan.Base.Table.{Table, lookup}

abbrev pub Role : Type 0
Role = Text

abbrev pub role_admin : Role
role_admin = str "admin"

abbrev pub role_operator : Role
role_operator = str "operator"

abbrev pub role_viewer : Role
role_viewer = str "viewer"

abbrev pub role_agent : Role
role_agent = str "agent"

abbrev pub Action : Type 0
Action = Text

abbrev pub action_read : Action
action_read = str "read"

abbrev pub action_manage : Action
action_manage = str "manage"

abbrev pub action_audit_read : Action
action_audit_read = str "audit.read"

abbrev pub action_cert_manage : Action
action_cert_manage = str "cert.manage"

abbrev pub action_policy_edit : Action
action_policy_edit = str "policy.edit"

abbrev pub action_config_read : Action
action_config_read = str "config.read"

abbrev pub action_telemetry_write : Action
action_telemetry_write = str "telemetry.write"

pub record Subject : Type 0 where
  pub id : Text
  pub tenant_id : Text
  pub roles : List Role

pub record Request : Type 0 where
  pub tenant_id : Text
  pub action : Action

pub record Authorizer : Type 0 where
  pub grants : Table (Table Bool)

pub data AuthError : Type 0 where
  subject_id_required subject_tenant_required request_tenant_required : AuthError
  request_action_required roles_required ttl_not_positive token_failed save_failed : AuthError

-- The map literal that grants each of the actions.
unfoldable pub granting : List Action → Table Bool
granting [] = []
granting (action ∷ actions) = (action, true) ∷ granting actions

unfoldable pub new_authorizer : Authorizer
new_authorizer = record {
  grants =
      (
        role_admin,
        granting (
            action_read ∷ action_manage ∷ action_audit_read ∷ action_cert_manage
            ∷ action_policy_edit ∷ action_config_read ∷ action_telemetry_write ∷ []),
      )
      ∷ (
        role_operator,
        granting (
            action_read ∷ action_manage ∷ action_cert_manage ∷ action_policy_edit
            ∷ action_config_read ∷ action_telemetry_write ∷ []),
      )
      ∷ (role_viewer, granting (action_read ∷ action_audit_read ∷ []))
      ∷ (role_agent, granting (action_config_read ∷ action_telemetry_write ∷ []))
      ∷ [];
}

flag : Option Bool → Bool
flag none = false
flag (some b) = b

actions_of : Option (Table Bool) → Table Bool
actions_of none = []
actions_of (some m) = m

-- a.grants[role][action]
unfoldable pub granted : Authorizer → Role → Action → Bool
unfolding flag actions_of
granted a role action = flag (lookup action (actions_of (lookup role a.grants)))

-- for _, role := range subject.Roles { if a.grants[role][request.Action] { return true } }
any_granted : Authorizer → List Role → Action → Bool
any_granted a [] action = false
any_granted a (role ∷ roles) action =
    let rest = any_granted a roles action in if granted a role action then true else rest

unfoldable pub allowed : Authorizer → Subject → Request → Outcome AuthError Bool
unfolding any_granted
allowed a subject request = do
  reject (subject.id == []) subject_id_required
  reject (subject.tenant_id == []) subject_tenant_required
  reject (request.tenant_id == []) request_tenant_required
  reject (request.action == []) request_action_required
  ok (
      if not (subject.tenant_id == request.tenant_id)
      then false
      else any_granted a subject.roles request.action)
