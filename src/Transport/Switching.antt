-- ===== src/Transport/Switching.antt =====
-- SwitchRuntime of internal/transport/runtime.go: when the active protocol changes. What apply and
-- the reporter answer are arguments: the text of their error, or none.
use anix_ops_sd_wan.Base.{
  ℕ, ◌+◌, ◌≤◌, ℤ, pos, pos_part, ltbℤ, ltb, eqb, Text, str, ◌==◌, eq_iff, Float64, Bool, true,
  false, not, ◌&&◌, ◌≡◌, refl, ◌⊎◌, inl, inr, Option, none, some, [], arith, if◌then◌else◌, Outcome,
  ok, err, ◌>>◌, reject, Outcome-cases, Option-cases, Bool-cases,
}
use anix_ops_sd_wan.Transport.{
  Protocol, Signals, TransportError, unknown_active, cooldown_negative, apply_required,
  known_protocol, validate_signals, select,
}

pub record SwitchReport : Type 0 where
  pub previous : Protocol
  pub selected : Protocol
  pub applied : Bool
  pub suppressed : Bool
  pub rolled_back : Bool
  pub reason : Text
  pub error : Text
  pub signals : Signals
  pub evaluated_at : ℕ

pub record SwitchRuntime : Type 0 where
  pub active : Protocol
  pub cooldown : ℤ
  pub last_switch : ℕ

unfoldable pub new_switch_runtime : Protocol → ℤ → Outcome TransportError SwitchRuntime
new_switch_runtime active cooldown = do
  reject (not (known_protocol active)) (unknown_active active)
  reject (ltbℤ cooldown (pos 0)) cooldown_negative
  ok (record { active = active; cooldown = cooldown; last_switch = 0 })

-- An error before the report is made, or the report with what the reporter answers.
pub data Evaluated : Type 0 where
  refused : TransportError → Evaluated
  reported : SwitchReport → Option Text → Evaluated

-- A reporter that is nil answers nothing.
abbrev pub report_to : Option (SwitchReport → Option Text) → SwitchReport → Option Text
report_to none r = none
report_to (some reporter) r = reporter r

-- !lastSwitch.IsZero() && cooldown > 0 && now.Sub(lastSwitch) < cooldown
unfoldable pub is_cooling : SwitchRuntime → ℕ → Bool
is_cooling r now =
    not (eqb r.last_switch 0)
    && ltbℤ (pos 0) r.cooldown
    && ltb now (r.last_switch + pos_part r.cooldown)

module _ (percent : Float64 → Text) where
  made_report : SwitchRuntime → ℕ → Signals → SwitchReport
  made_report r now signals = record {
    previous = r.active;
    selected = (select percent signals).protocol;
    applied = false;
    suppressed = false;
    rolled_back = false;
    reason = (select percent signals).reason;
    error = [];
    signals = signals;
    evaluated_at = now;
  }

  -- After the call of apply: its error, or the switch.
  switched : SwitchRuntime → ℕ → SwitchReport → Option Text → SwitchRuntime × SwitchReport
  switched r now report (some e) =
      (r, record report { selected = r.active; rolled_back = true; error = e })
  switched r now report none =
      (record r { active = report.selected; last_switch = now }, record report { applied = true })

  -- The runtime and the report of a call with valid signals.
  decided : SwitchRuntime → ℕ → Signals → (Protocol → Option Text) → SwitchRuntime × SwitchReport
  decided r now signals apply =
      let report = made_report r now signals in
      if report.selected == r.active
      then (r, record report { applied = true })
      else if is_cooling r now
      then (
        r,
        record report {
          selected = r.active;
          suppressed = true;
          reason = str "switch cooldown active";
        },
      )
      else switched r now report (apply report.selected)

  check_apply : Option (Protocol → Option Text) → Outcome TransportError (Protocol → Option Text)
  check_apply none = err apply_required
  check_apply (some apply) = ok apply

  checked :
      Signals → Option (Protocol → Option Text) → Outcome TransportError (Protocol → Option Text)
  checked signals apply = do validate_signals signals; check_apply apply

  reporting :
      SwitchRuntime
      → ℕ
      → Signals
      → Option (SwitchReport → Option Text)
      → Outcome TransportError (Protocol → Option Text)
      → SwitchRuntime × Evaluated
  reporting r now signals reporter (err e) = (r, refused e)
  reporting r now signals reporter (ok apply) =
      let (r', report) = decided r now signals apply in
      (r', reported report (report_to reporter report))

  unfoldable pub evaluate :
      SwitchRuntime
      → ℕ
      → Signals
      → Option (Protocol → Option Text)
      → Option (SwitchReport → Option Text)
      → SwitchRuntime × Evaluated
  unfolding made_report switched decided check_apply checked reporting
  evaluate r now signals apply reporter = reporting r now signals reporter (checked signals apply)

  cooling-free :
      (r : SwitchRuntime) (now : ℕ)
      → is_cooling r now ≡ false
      → (r.last_switch ≡ 0)
        ⊎ ((pos_part r.cooldown ≡ 0) ⊎ (r.last_switch + pos_part r.cooldown ≤ now))
  unfolding is_cooling
  cooling-free r now h = ground arith

  -- Where Evaluate changes the active protocol, the signals were valid and the new one is what the
  -- selector takes for them, apply was given it and returned no error, no cooldown was running,
  -- and the time of the call is noted as that of the last switch. A call that does not change it
  -- leaves the whole runtime.
  pub evaluate_switches :
      (r : SwitchRuntime) (now : ℕ) (signals : Signals) (apply : Protocol → Option Text)
      (reporter : Option (SwitchReport → Option Text))
      → ((evaluate r now signals (some apply) reporter).0 ≡ r)
        ⊎ ((validate_signals signals ≡ ok tt)
            × (apply (select percent signals).protocol ≡ none)
            × ((r.last_switch ≡ 0)
                ⊎ ((pos_part r.cooldown ≡ 0) ⊎ (r.last_switch + pos_part r.cooldown ≤ now)))
            × ((evaluate r now signals (some apply) reporter).0
                ≡ record r { active = (select percent signals).protocol; last_switch = now }))
  unfolding evaluate
  evaluate_switches r now signals apply reporter =
      let p = (select percent signals).protocol in
      elim (Outcome-cases (validate_signals signals)) [
        | inr (e, invalid) ↦ inl (rw invalid refl)
        | inl (u, valid) ↦ elim (Bool-cases (p == r.active)) [
          | inl same ↦ inl (rw (valid, same) refl)
          | inr other ↦ elim (Bool-cases (is_cooling r now)) [
            | inl cooling ↦ inl (rw (valid, other, cooling) refl)
            | inr free ↦ elim (Option-cases (apply p)) [
              | inr (e, failed) ↦ inl (rw (valid, other, free, failed) refl)
              | inl done ↦
                  inr (valid, done, cooling-free r now free, rw (valid, other, free, done) refl)
            ]
          ]
        ]
      ]

  -- What a report says of the call: either the protocol that is active afterwards was selected and
  -- applied, or the call was suppressed by the cooldown, or apply failed and it was rolled back; in
  -- the last two the runtime is as before.
  abbrev pub IsReport : SwitchRuntime → SwitchRuntime → SwitchReport → Type 0
  IsReport r r' report =
      (report.previous ≡ r.active)
      × (report.selected ≡ r'.active)
      × (((report.applied ≡ true) × (report.suppressed ≡ false) × (report.rolled_back ≡ false))
          ⊎ (((report.applied ≡ false)
                × (report.suppressed ≡ true)
                × (report.rolled_back ≡ false)
                × (r' ≡ r))
              ⊎ ((report.applied ≡ false)
                  × (report.suppressed ≡ false)
                  × (report.rolled_back ≡ true)
                  × (r' ≡ r))))

  decided-IsReport :
      (r : SwitchRuntime) (now : ℕ) (signals : Signals) (apply : Protocol → Option Text)
      (report : SwitchReport)
      → (decided r now signals apply).1 ≡ report
      → IsReport r (decided r now signals apply).0 report
  unfolding decided made_report switched
  decided-IsReport r now signals apply report h =
      let p = (select percent signals).protocol in ground (arith, h, eq_iff p r.active)

  -- Every report of Evaluate names the protocol that was active and the one that now is, and is
  -- exactly one of applied, suppressed and rolled back; the last two leave the runtime.
  pub evaluate-IsReport :
      (r : SwitchRuntime) (now : ℕ) (signals : Signals) (apply : Option (Protocol → Option Text))
      (reporter : Option (SwitchReport → Option Text)) (report : SwitchReport)
      (answer : Option Text)
      → (evaluate r now signals apply reporter).1 ≡ reported report answer
      → IsReport r (evaluate r now signals apply reporter).0 report
  unfolding evaluate
  evaluate-IsReport r now signals none reporter report answer h =
      elim (Outcome-cases (validate_signals signals)) [
        | inr (e, invalid) ↦ absurd (ground (arith, h, invalid))
        | inl (u, valid) ↦ absurd (ground (arith, h, valid))
      ]
  evaluate-IsReport r now signals (some apply) reporter report answer h =
      let p = (select percent signals).protocol in
      elim (Outcome-cases (validate_signals signals)) [
        | inr (e, invalid) ↦ absurd (ground (arith, h, invalid))
        | inl (u, valid) ↦
            rw valid (decided-IsReport r now signals apply report (ground (arith, h, valid)))
      ]
