-- ===== src/Auth/Access.antt =====
-- Allowed of internal/auth/rbac.go against the table of roles.
use anix_ops_sd_wan.Base.{
  ◌==◌, eq_iff, true, false, ◌≡◌, refl, ◌↔◌, inl, inr, List, [], ◌∷◌, arith, In, Bool-cases, ok,
}
use anix_ops_sd_wan.Base.Sorting.{All, All-In}
use anix_ops_sd_wan.Base.Table.{lookup}
use anix_ops_sd_wan.Auth.{
  Role, role_admin, role_operator, role_viewer, role_agent, Action, action_read, action_manage,
  action_audit_read, action_cert_manage, action_policy_edit, action_config_read,
  action_telemetry_write, Subject, Request, granting, new_authorizer, granted, any_granted, flag,
  allowed,
}

-- What each role may do, as a relation.
pub data MayDo : Role → Action → Type 0 where
  reads : (r : Role) → In r (role_admin ∷ role_operator ∷ role_viewer ∷ []) → MayDo r action_read
  audits : (r : Role) → In r (role_admin ∷ role_viewer ∷ []) → MayDo r action_audit_read
  manages :
      (r : Role) (a : Action)
      → In r (role_admin ∷ role_operator ∷ [])
      → In a (action_manage ∷ action_cert_manage ∷ action_policy_edit ∷ [])
      → MayDo r a
  serves :
      (r : Role) (a : Action)
      → In r (role_admin ∷ role_operator ∷ role_agent ∷ [])
      → In a (action_config_read ∷ action_telemetry_write ∷ [])
      → MayDo r a

lookup-granting :
    (a : Action) (actions : List Action) → flag (lookup a (granting actions)) ≡ true → In a actions
unfolding lookup granting flag
lookup-granting a [] h = cc
lookup-granting a (b ∷ actions) h = ground (arith, eq_iff b a, lookup-granting a actions)

abbrev admin_actions : List Action
admin_actions =
    action_read ∷ action_manage ∷ action_audit_read ∷ action_cert_manage ∷ action_policy_edit
    ∷ action_config_read ∷ action_telemetry_write ∷ []

admin_may : All (MayDo role_admin) admin_actions
admin_may = (
  reads role_admin (inl refl),
  (
    manages role_admin action_manage (inl refl) (inl refl),
    (
      audits role_admin (inl refl),
      (
        manages role_admin action_cert_manage (inl refl) (inr (inl refl)),
        (
          manages role_admin action_policy_edit (inl refl) (inr (inr (inl refl))),
          (
            serves role_admin action_config_read (inl refl) (inl refl),
            (serves role_admin action_telemetry_write (inl refl) (inr (inl refl)), tt),
          ),
        ),
      ),
    ),
  ),
)

abbrev operator_actions : List Action
operator_actions =
    action_read ∷ action_manage ∷ action_cert_manage ∷ action_policy_edit ∷ action_config_read
    ∷ action_telemetry_write ∷ []

operator_may : All (MayDo role_operator) operator_actions
operator_may = (
  reads role_operator (inr (inl refl)),
  (
    manages role_operator action_manage (inr (inl refl)) (inl refl),
    (
      manages role_operator action_cert_manage (inr (inl refl)) (inr (inl refl)),
      (
        manages role_operator action_policy_edit (inr (inl refl)) (inr (inr (inl refl))),
        (
          serves role_operator action_config_read (inr (inl refl)) (inl refl),
          (serves role_operator action_telemetry_write (inr (inl refl)) (inr (inl refl)), tt),
        ),
      ),
    ),
  ),
)

abbrev viewer_actions : List Action
viewer_actions = action_read ∷ action_audit_read ∷ []

viewer_may : All (MayDo role_viewer) viewer_actions
viewer_may = (reads role_viewer (inr (inr (inl refl))), (audits role_viewer (inr (inl refl)), tt))

abbrev agent_actions : List Action
agent_actions = action_config_read ∷ action_telemetry_write ∷ []

agent_may : All (MayDo role_agent) agent_actions
agent_may = (
  serves role_agent action_config_read (inr (inr (inl refl))) (inl refl),
  (serves role_agent action_telemetry_write (inr (inr (inl refl))) (inr (inl refl)), tt),
)

-- A role with its actions stands for a part of the relation.
of_role :
    (role r : Role) (a : Action) (actions : List Action)
    → All (MayDo role) actions
    → (role == r) ≡ true
    → flag (lookup a (granting actions)) ≡ true
    → MayDo r a
of_role role r a actions may e h =
    rw (← (eq_iff role r).0 e) (All-In (MayDo role) actions a may (lookup-granting a actions h))

granted-MayDo : (r : Role) (a : Action) → granted new_authorizer r a ≡ true → MayDo r a
unfolding granted new_authorizer lookup
granted-MayDo r a h = elim (Bool-cases (role_admin == r)) [
  | inl e ↦ of_role role_admin r a admin_actions admin_may e (ground arith)
  | inr n ↦ elim (Bool-cases (role_operator == r)) [
    | inl e ↦ of_role role_operator r a operator_actions operator_may e (ground arith)
    | inr m ↦ elim (Bool-cases (role_viewer == r)) [
      | inl e ↦ of_role role_viewer r a viewer_actions viewer_may e (ground arith)
      | inr k ↦ elim (Bool-cases (role_agent == r)) [
        | inl e ↦ of_role role_agent r a agent_actions agent_may e (ground arith)
        | inr j ↦ absurd (ground arith)
      ]
    ]
  ]
]

abbrev Grants : Role → Action → Type 0
Grants r a = granted new_authorizer r a ≡ true

MayDo-granted : {r : Role} {a : Action} → MayDo r a → Grants r a
unfolding granted new_authorizer lookup granting ◌==◌
MayDo-granted (reads r i) =
    All-In (λ s. Grants s action_read) (role_admin ∷ role_operator ∷ role_viewer ∷ []) r
      (refl, (refl, (refl, tt))) i
MayDo-granted (audits r i) =
    All-In (λ s. Grants s action_audit_read) (role_admin ∷ role_viewer ∷ []) r (refl, (refl, tt)) i
MayDo-granted (manages r a i j) =
    let roles = role_admin ∷ role_operator ∷ [] in
    All-In (λ s. Grants s a) roles r
      (All-In (λ b. All (λ s. Grants s b) roles)
        (action_manage ∷ action_cert_manage ∷ action_policy_edit ∷ []) a
        ((refl, (refl, tt)), ((refl, (refl, tt)), ((refl, (refl, tt)), tt))) j)
      i
MayDo-granted (serves r a i j) =
    let roles = role_admin ∷ role_operator ∷ role_agent ∷ [] in
    All-In (λ s. Grants s a) roles r
      (All-In (λ b. All (λ s. Grants s b) roles) (action_config_read ∷ action_telemetry_write ∷ [])
        a ((refl, (refl, (refl, tt))), ((refl, (refl, (refl, tt))), tt)) j)
      i

any_granted-In :
    (roles : List Role) (a : Action)
    → any_granted new_authorizer roles a ≡ true
    → (r : Role) × In r roles × MayDo r a
unfolding any_granted
any_granted-In [] a h = cc
any_granted-In (r ∷ roles) a h = elim (Bool-cases (granted new_authorizer r a)) [
  | inl e ↦ (r, inl refl, granted-MayDo r a e)
  | inr n ↦ let (s, i, m) = any_granted-In roles a (ground arith) in (s, inr i, m)
]

In-any_granted :
    (roles : List Role) (a : Action) (r : Role)
    → In r roles
    → MayDo r a
    → any_granted new_authorizer roles a ≡ true
unfolding any_granted
In-any_granted [] a r i m = elim i [ ]
In-any_granted (s ∷ roles) a r (inl e) m = ground (arith, MayDo-granted m)
In-any_granted (s ∷ roles) a r (inr i) m = ground (arith, In-any_granted roles a r i m)

module _ (subject : Subject) (request : Request) where
  -- The four texts that a request must come with.
  pub record IsNamed : Type 0 where
    pub subject_id : (subject.id == []) ≡ false
    pub subject_tenant : (subject.tenant_id == []) ≡ false
    pub request_tenant : (request.tenant_id == []) ≡ false
    pub request_action : (request.action == []) ≡ false

  allowed-any : (allowed new_authorizer subject request ≡ ok true) ↔ (
      IsNamed
      × (subject.tenant_id ≡ request.tenant_id)
      × (any_granted new_authorizer subject.roles request.action ≡ true))
  unfolding allowed
  allowed-any = ground (arith, eq_iff subject.tenant_id request.tenant_id)

  -- The authorizer allows a request exactly when the subject's and the request's IDs are given, the
  -- request is for the subject's own tenant, and one of the subject's roles may do the action: all
  -- but agents read, admins and viewers read the audit log, admins and operators manage, edit
  -- policies and certificates, and all but viewers read configs and write telemetry.
  pub allowed_iff : (allowed new_authorizer subject request ≡ ok true) ↔ (
      IsNamed
      × (subject.tenant_id ≡ request.tenant_id)
      × ((r : Role) × In r subject.roles × MayDo r request.action))
  allowed_iff = (
    (λ h. let (n, t, g) = allowed-any.0 h in (n, t, any_granted-In subject.roles request.action g)),
    (λ (n, t, g).
        let (r, i, m) = g in
        allowed-any.1 (n, t, In-any_granted subject.roles request.action r i m)),
  )
