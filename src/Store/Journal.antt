-- ===== src/Store/Journal.antt =====
-- The audit log of internal/store/memory.go: it only grows, by one event for each call that
-- succeeds, and it numbers the events that come without an ID.
use mathlib.Core.List.{append-nil, append_assoc}
use anix_ops_sd_wan.Base.{
  Text, str, ◌==◌, eq_iff, Bool, true, false, ◌&&◌, ◌≡◌, refl, sym, ap, ◌∙◌, List, [], ◌∷◌, ◌++◌,
  length, arith, if◌then◌else◌, inl, inr, ◌⊎◌, Bool-cases,
}
use anix_ops_sd_wan.Base.Sorting.{All, All-append}
use anix_ops_sd_wan.Base.Table.{lookup-put}
use anix_ops_sd_wan.Net.{Net}
use anix_ops_sd_wan.Domain.{AuditEvent}
use anix_ops_sd_wan.Store.{
  Memory, inner, append_inner, audit_locked, event_of, completed, create_tenant, register_device,
  register_node, record_node_heartbeat, retire_node, upsert_config, record_audit_event,
  record_telemetry, upsert_policy_rule,
}
use anix_ops_sd_wan.Telemetry.{sanitized}
use anix_ops_sd_wan.Store.Calls.{
  Call, creates, adds_device, adds_node, beats, retires, configures, notes, reports, rules,
  tenant_of, after_either, call, run,
}

abbrev pub log_of : Text → Memory → List AuditEvent
log_of j m = inner j m.audit

-- The state after a call adds these events to the log of the tenant j.
pub record IsLogged (j : Text) (m : Memory) (c : Call) (after : Memory × Bool) : Type 0 where
  pub added : List AuditEvent
  pub log : log_of j after.0 ≡ log_of j m ++ added
  pub count : length added ≡ (if after.1 && tenant_of c == j then 1 else 0)
  pub own : All (λ e. e.tenant_id ≡ j) added

unchanged : (j : Text) (m : Memory) (c : Call) → IsLogged j m c (m, false)
unchanged j m c = record { added = []; log = sym (append-nil (log_of j m)); count = refl; own = tt }

appended :
    (j : Text) (m m' : Memory) (c : Call) (e : AuditEvent)
    → e.tenant_id ≡ tenant_of c
    → m'.audit ≡ append_inner (tenant_of c) e m.audit
    → IsLogged j m c (m', true)
appended j m m' c e own eq =
    let found = lookup-put (tenant_of c) j (log_of (tenant_of c) m ++ (e ∷ [])) m.audit in
    elim (Bool-cases (tenant_of c == j)) [
      | inl same ↦
          let key : tenant_of c ≡ j = (eq_iff (tenant_of c) j).0 same in
          record {
            added = e ∷ [];
            log = ground (arith, found, key, eq, same);
            count = ground (arith, same);
            own = (own ∙ key, tt);
          }
      | inr other ↦ record {
        added = [];
        log = rw (eq, found, other) (sym (append-nil (log_of j m)));
        count = ground (arith, other);
        own = tt;
      }
    ]

module _ (net : Net) where
  -- The event that a call logs where it succeeds.
  abbrev pub logged : Memory → Call → AuditEvent
  logged m (creates done tenant now now') =
      event_of m tenant.id (str "system") (str "tenant.create") (str "tenant") tenant.id now'
  logged m (adds_device done device now now') =
      event_of m device.tenant_id device.id (str "device.register") (str "device") device.id now'
  logged m (adds_node done node now now') =
      event_of m node.tenant_id node.id (str "node.register") (str "node") node.id now'
  logged m (beats done heartbeat now now') =
      event_of m heartbeat.tenant_id heartbeat.node_id (str "node.heartbeat") (str "node")
        heartbeat.node_id now'
  logged m (retires done tenant_id node_id now now') =
      event_of m tenant_id node_id (str "node.retire") (str "node") node_id now'
  logged m (configures done bundle now now') =
      event_of m bundle.tenant_id (str "system") (str "config.upsert") (str "config_bundle")
        bundle.id now'
  logged m (notes done event now) = completed m event now
  logged m (reports done report clock now) =
      event_of m report.tenant_id report.subject_id (str "telemetry.record") report.subject_kind
        report.subject_id now
  logged m (rules done rule now) =
      event_of m rule.tenant_id (str "system") (str "policy.upsert") (str "policy_rule") rule.id now

  logged-tenant : (m : Memory) (c : Call) → (logged m c).tenant_id ≡ tenant_of c
  unfolding tenant_of completed
  logged-tenant m (creates done tenant now now') = refl
  logged-tenant m (adds_device done device now now') = refl
  logged-tenant m (adds_node done node now now') = refl
  logged-tenant m (beats done heartbeat now now') = refl
  logged-tenant m (retires done tenant_id node_id now now') = refl
  logged-tenant m (configures done bundle now now') = refl
  logged-tenant m (notes done event now) = refl
  logged-tenant m (reports done report clock now) = refl
  logged-tenant m (rules done rule now) = refl

  -- A call that fails leaves the state, and one that succeeds appends its event to one log.
  abbrev pub IsAppended : Memory → Call → Memory × Bool → Type 0
  IsAppended m c r =
      (r ≡ (m, false))
      ⊎ ((r.1 ≡ true) × (r.0.audit ≡ append_inner (tenant_of c) (logged m c) m.audit))

  pub call_appends : (m : Memory) (c : Call) → IsAppended m c (call net m c)
  unfolding call tenant_of audit_locked completed sanitized create_tenant register_device
      register_node record_node_heartbeat retire_node upsert_config record_audit_event
      record_telemetry upsert_policy_rule
  call_appends m (creates done tenant now now') =
      after_either (IsAppended m (creates done tenant now now')) m
        (create_tenant m done tenant now now') (inl refl) (λ m' a h. inr (refl, ground (arith, h)))
  call_appends m (adds_device done device now now') =
      after_either (IsAppended m (adds_device done device now now')) m
        (register_device m done device now now') (inl refl)
        (λ m' a h. inr (refl, ground (arith, h)))
  call_appends m (adds_node done node now now') =
      after_either (IsAppended m (adds_node done node now now')) m
        (register_node m done node now now') (inl refl) (λ m' a h. inr (refl, ground (arith, h)))
  call_appends m (beats done heartbeat now now') =
      after_either (IsAppended m (beats done heartbeat now now')) m
        (record_node_heartbeat m done heartbeat now now') (inl refl)
        (λ m' a h. inr (refl, ground (arith, h)))
  call_appends m (retires done tenant_id node_id now now') =
      after_either (IsAppended m (retires done tenant_id node_id now now')) m
        (retire_node m done tenant_id node_id now now') (inl refl)
        (λ m' a h. inr (refl, ground (arith, h)))
  call_appends m (configures done bundle now now') =
      after_either (IsAppended m (configures done bundle now now')) m
        (upsert_config m done bundle now now') (inl refl) (λ m' a h. inr (refl, ground (arith, h)))
  call_appends m (notes done event now) =
      after_either (IsAppended m (notes done event now)) m (record_audit_event m done event now)
        (inl refl) (λ m' a h. inr (refl, ground (arith, h)))
  call_appends m (reports done report clock now) =
      after_either (IsAppended m (reports done report clock now)) m
        (record_telemetry net m done report clock now) (inl refl)
        (λ m' a h. inr (refl, ground (arith, h)))
  call_appends m (rules done rule now) =
      after_either (IsAppended m (rules done rule now)) m (upsert_policy_rule net m done rule now)
        (inl refl) (λ m' a h. inr (refl, ground (arith, h)))

  -- A call that succeeds appends exactly one event to the audit log of the tenant that it names,
  -- and that event names the tenant too; the logs of other tenants stay as they are, and so do
  -- all logs where the call fails.
  pub call-IsLogged : (m : Memory) (c : Call) (j : Text) → IsLogged j m c (call net m c)
  call-IsLogged m c j = elim (call_appends m c) [
    | inl failed ↦ rw failed (unchanged j m c)
    | inr (done, eq) ↦ rw done (appended j m (call net m c).0 c (logged m c) (logged-tenant m c) eq)
  ]

  -- The audit log is append-only: whatever calls follow, the log of each tenant is kept and
  -- events of this tenant are added behind it.
  pub run_appends :
      (m : Memory) (cs : List Call) (j : Text)
      → (added : List AuditEvent) × (log_of j (run net m cs) ≡ log_of j m ++ added)
        × All (λ e. e.tenant_id ≡ j) added
  unfolding run
  run_appends m [] j = ([], sym (append-nil (log_of j m)), tt)
  run_appends m (c ∷ cs) j =
      let first = call-IsLogged m c j in
      let (added, log, own) = run_appends (call net m c).0 cs j in
      (
        first.added ++ added,
        log ∙ ap (λ l. l ++ added) first.log ∙ append_assoc (log_of j m) first.added added,
        All-append (λ e. e.tenant_id ≡ j) first.added added first.own own,
      )
