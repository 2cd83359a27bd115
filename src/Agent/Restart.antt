-- ===== src/Agent/Restart.antt =====
-- What the calls of internal/agent/service.go keep between the snapshot, the runtime and the cache.
use anix_ops_sd_wan.Base.{
  ℕ, Text, str, eq_iff, Float64, Option, none, some, Option-cases, ◌≡◌, refl, ap, ◌∙◌, sym, inl,
  inr, arith, ok, Outcome-cases,
}
use anix_ops_sd_wan.Net.{Net}
use anix_ops_sd_wan.Domain.{ConfigBundle, validate_config}
use anix_ops_sd_wan.Transport.{Protocol, Signals}
use anix_ops_sd_wan.Transport.Switching.{
  SwitchRuntime, SwitchReport, Evaluated, refused, reported, evaluate, evaluate-IsReport,
}
use anix_ops_sd_wan.Policy.Bundle.{text_at}
use anix_ops_sd_wan.Agent.Service.{
  Config, Service, load_cache, invalid_cache, with_cached, restored, evaluate_service,
  snapshot_with_signals, parse_transport_protocol,
}
use anix_ops_sd_wan.Agent.Changes.{
  save_cache, cache_fault, with_protocol, configured, saving, apply_config, evaluated, evaluating,
  evaluate_and_apply, unswitched_report, shown_reason,
}

-- The snapshot shows the protocol that the runtime has made active.
abbrev pub IsFollowing : Service → Type 0
IsFollowing s = (r : SwitchRuntime) → s.switch_runtime ≡ some r → s.snapshot.protocol ≡ r.active

module _ (platform : Text) (percent : Float64 → Text) where
  evaluated-report :
      (s s' : Service) (now : ℕ) (signals : Signals) (p : SwitchRuntime × Evaluated)
      (report : SwitchReport)
      → evaluated platform percent s now signals p ≡ (s', ok report)
      → (p.1 ≡ reported report none)
        × (s' ≡ record s {
          switch_runtime = some p.0;
          snapshot =
              snapshot_with_signals platform s.cfg s.snapshot.running report.selected
                (shown_reason report)
                now
                signals;
        })
  unfolding evaluated
  evaluated-report s s' now signals (r, refused why) report h = ground (arith, h)
  evaluated-report s s' now signals (r, reported report' (some why)) report h = ground (arith, h)
  evaluated-report s s' now signals (r, reported report' none) report h =
      let same : report' ≡ report = ground (arith, h) in
      let end = ap (λ r. r.0) h in rw (← same) (refl, sym end)

  evaluating-report :
      (s s' : Service) (runtime : Option SwitchRuntime) (now : ℕ) (signals : Signals)
      (apply : Option (Protocol → Option Text)) (reporter : Option (SwitchReport → Option Text))
      (report : SwitchReport)
      → s.switch_runtime ≡ runtime
      → evaluating platform percent s runtime now signals apply reporter ≡ (s', ok report)
      → (s'.snapshot.protocol ≡ report.selected)
        × IsFollowing s'
        × (s'.cfg ≡ s.cfg)
        × (s'.cache ≡ s.cache)
  unfolding evaluating evaluate_service unswitched_report snapshot_with_signals
  evaluating-report s s' none now signals apply reporter report with h =
      let end = ap (λ r. r.0) h in
      let told = ap (λ r. r.1) h in rw (← end) (ground (arith, told), (λ r e. cc), refl, refl)
  evaluating-report s s' (some r) now signals apply reporter report with h =
      let next = evaluate percent r now signals apply reporter in
      let (made, end) = evaluated-report s s' now signals next report h in
      let told = evaluate-IsReport percent r now signals apply reporter report none made in
      rw end (
        refl,
        (λ r' e. let same : next.0 ≡ r' = cc in told.1 ∙ ap SwitchRuntime.active same),
        refl,
        refl,
      )

  -- A call of EvaluateAndApply that gives no error leaves the snapshot with the protocol of its
  -- report, which is the one that the runtime has made active, where the service has a runtime; it
  -- leaves the configuration and the cache.
  pub evaluate_and_apply-IsFollowing :
      (s s' : Service) (now : ℕ) (signals : Signals) (apply : Option (Protocol → Option Text))
      (reporter : Option (SwitchReport → Option Text)) (report : SwitchReport)
      → evaluate_and_apply platform percent s now signals apply reporter ≡ (s', ok report)
      → (s'.snapshot.protocol ≡ report.selected)
        × IsFollowing s'
        × (s'.cfg ≡ s.cfg)
        × (s'.cache ≡ s.cache)
  unfolding evaluate_and_apply
  evaluate_and_apply-IsFollowing s s' now signals apply reporter report h =
      evaluating-report s s' s.switch_runtime now signals apply reporter report refl h

module _ (net : Net) where
  apply_config-taken :
      (s s' : Service) (bundle : ConfigBundle) (fault : Option Text) (clock : ℕ)
      → apply_config net s bundle fault clock ≡ (s', ok tt)
      → (validate_config bundle ≡ ok tt)
        × (bundle.tenant_id ≡ s.cfg.tenant_id)
        × (bundle.target_id ≡ s.cfg.device_id)
        × (cache_fault s.cache fault ≡ none)
        × (s' ≡ configured net s bundle clock)
  unfolding apply_config saving
  apply_config-taken s s' bundle fault clock h =
      let tenant = eq_iff bundle.tenant_id s.cfg.tenant_id in
      let target = eq_iff bundle.target_id s.cfg.device_id in
      elim (Outcome-cases (validate_config bundle)) [
        | inr (why, e) ↦ absurd (ground (arith, e, h))
        | inl (u, e) ↦ elim (Option-cases (cache_fault s.cache fault)) [
          | inr (why, bad) ↦ absurd (ground (arith, e, bad, h))
          | inl good ↦ ground (arith, e, good, h, tenant, target)
        ]
      ]

  -- The cache after a successful ApplyConfig brings the version of the bundle back: a service that
  -- is started on it, with the configuration that the first one was started with and no fault of
  -- the disk, takes over this version.
  pub restart-apply_config :
      (s s' : Service) (bundle : ConfigBundle) (clock : ℕ) (file : Option ConfigBundle)
      (cfg : Config)
      → s.cache ≡ some file
      → cfg.tenant_id ≡ s.cfg.tenant_id
      → cfg.device_id ≡ s.cfg.device_id
      → apply_config net s bundle none clock ≡ (s', ok tt)
      → restored cfg s'.cache none ≡ ok (record cfg { config_version = s'.snapshot.config_version })
  unfolding configured save_cache restored load_cache invalid_cache with_cached with_protocol
  restart-apply_config s s' bundle clock file cfg cache tenant device h =
      let (valid, of_tenant, of_device, saved, end) = apply_config-taken s s' bundle none clock h in
      let t = (eq_iff bundle.tenant_id cfg.tenant_id).1 (of_tenant ∙ sym tenant) in
      let d = (eq_iff bundle.target_id cfg.device_id).1 (of_device ∙ sym device) in
      rw (end, cache, valid, t, d) refl

  -- A successful ApplyConfig shows the protocol that the bundle names in the snapshot, and leaves
  -- the runtime, whatever is active there.
  pub apply_config-unswitched :
      (s s' : Service) (bundle : ConfigBundle) (fault : Option Text) (clock : ℕ) (p : Protocol)
      → apply_config net s bundle fault clock ≡ (s', ok tt)
      → parse_transport_protocol net (text_at (str "transport") bundle.values) ≡ some p
      → (s'.snapshot.protocol ≡ p) × (s'.switch_runtime ≡ s.switch_runtime)
  unfolding configured with_protocol
  apply_config-unswitched s s' bundle fault clock p h named =
      rw ((apply_config-taken s s' bundle fault clock h).4, configured, named) (refl, refl)
