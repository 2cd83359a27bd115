-- ===== src/Transport/Lifecycle/Supervision.antt =====
-- Which protocol runs after the calls of internal/transport/supervisor.go.
use anix_ops_sd_wan.Base.{
  ℕ, suc, ◌&&◌, Text, ◌==◌, eq_iff, eq_refl, true, false, ◌≡◌, refl, sym, ◌∙◌, ◌⊎◌, inl, inr,
  Option, none, some, [], arith, Bool-cases, Option-cases, Outcome, ok, err, Outcome-cases,
}
use anix_ops_sd_wan.Base.Table.{lookup}
use anix_ops_sd_wan.Transport.{Protocol}
use anix_ops_sd_wan.Transport.Lifecycle.{
  ProtocolLifecycleSpec, LifecycleError, Supervisor, Outside, failed, no_spec, start_failed,
  stop_failed, restore_failed, start_locked, stop_locked, restore_locked, activate, stop, taken,
  start_known, restored, finished, replace, activate_known, stop_process, stop_command, cleared,
}

-- The parts of the state that a caller sees.
abbrev pub IsRunning : Protocol → Supervisor → Type 0
IsRunning p s = (s.active_set ≡ true) × (s.active ≡ p)

module _ (outside : Outside) where
  -- The two states say the same of the active protocol.
  abbrev AreAlike : Supervisor → Supervisor → Type 0
  AreAlike s s' =
      (s'.specs ≡ s.specs)
      × (s'.active_set ≡ s.active_set)
      × (s'.active ≡ s.active)
      × (s'.process ≡ s.process)

  start_locked-AreAlike :
      (s : Supervisor) (spec : ProtocolLifecycleSpec) → AreAlike s (start_locked outside s spec).0
  unfolding start_locked
  start_locked-AreAlike s spec = ground arith

  stop_process-AreAlike : (s : Supervisor) (q : Option ℕ) → AreAlike s (stop_process outside s q).0
  unfolding stop_process
  stop_process-AreAlike s none = (refl, refl, refl, refl)
  stop_process-AreAlike s (some q) = (refl, refl, refl, refl)

  stop_command-AreAlike :
      (s : Supervisor) (o : Option ProtocolLifecycleSpec) → AreAlike s (stop_command outside s o).0
  unfolding stop_command
  stop_command-AreAlike s none = (refl, refl, refl, refl)
  stop_command-AreAlike s (some spec) = ground arith

  -- A stop clears the state, or it returns an error and leaves what the state says.
  abbrev IsStopped : Supervisor → Supervisor × Outcome LifecycleError (Unit {0}) → Type 0
  IsStopped s r =
      (r.0.specs ≡ s.specs)
      × (((r.1 ≡ ok tt) × (r.0.active_set ≡ false))
          ⊎ (((e : LifecycleError) × (r.1 ≡ err e))
              × (r.0.active_set ≡ s.active_set)
              × (r.0.active ≡ s.active)
              × (r.0.process ≡ s.process)))

  cleared-IsStopped :
      (s s' : Supervisor) (e e' : Option Text)
      → AreAlike s s'
      → IsStopped s (cleared outside s' e e')
  unfolding cleared
  cleared-IsStopped s s' (some e) e' (a, b, c, d) = (a, inr ((failed e, refl), b, c, d))
  cleared-IsStopped s s' none (some e) (a, b, c, d) = (a, inr ((failed e, refl), b, c, d))
  cleared-IsStopped s s' none none (a, b, c, d) = (a, inl (refl, refl))

  stop_locked-IsStopped : (s : Supervisor) → IsStopped s (stop_locked outside s)
  unfolding stop_locked
  stop_locked-IsStopped s =
      let first = stop_process outside s s.process in
      let second = stop_command outside first.0 (lookup s.active s.specs) in
      let (a, b, c, d) = stop_process-AreAlike s s.process in
      let (a', b', c', d') = stop_command-AreAlike first.0 (lookup s.active s.specs) in
      cleared-IsStopped s second.0 first.1 second.1 (a' ∙ a, b' ∙ b, c' ∙ c, d' ∙ d)

  -- The call returned without an error and p is active, or it returned an error.
  abbrev IsTaken : Protocol → Supervisor → Supervisor × Outcome LifecycleError (Unit {0}) → Type 0
  IsTaken p s r =
      (r.0.specs ≡ s.specs)
      × (((r.1 ≡ ok tt) × IsRunning p r.0)
          ⊎ (((e : LifecycleError) × (r.1 ≡ err e))
              × (r.0.active_set ≡ s.active_set)
              × (r.0.active ≡ s.active)))

  start-IsTaken :
      (p : Protocol) (s : Supervisor) (spec : ProtocolLifecycleSpec)
      → IsTaken p s (taken outside p (start_locked outside s spec))
  unfolding taken
  start-IsTaken p s spec =
      let (a, b, c, d) = start_locked-AreAlike s spec in
      elim (Outcome-cases (start_locked outside s spec).1) [
        | inl (process, e) ↦ rw e (a, inl (refl, (refl, refl)))
        | inr (error, e) ↦ rw e (a, inr ((error, refl), b, c))
      ]

  restore-IsTaken : (s : Supervisor) (p : Protocol) → IsTaken p s (restore_locked outside s p)
  unfolding restore_locked start_known
  restore-IsTaken s p = elim (Option-cases (lookup p s.specs)) [
    | inl e ↦ rw e (refl, inr ((no_spec p, refl), refl, refl))
    | inr (spec, e) ↦ rw e (start-IsTaken p s spec)
  ]

  -- What Activate may leave: p active and no error, or an error and either the protocol that was
  -- active before, or none.
  abbrev pub IsSettled :
      Protocol → Supervisor → Supervisor × Outcome LifecycleError (Unit {0}) → Type 0
  IsSettled p s r =
      (r.0.specs ≡ s.specs)
      × (((r.1 ≡ ok tt) × IsRunning p r.0)
          ⊎ (((e : LifecycleError) × (r.1 ≡ err e))
              × ((r.0.active_set ≡ false)
                  ⊎ ((r.0.active_set ≡ s.active_set) × (r.0.active ≡ s.active)))))

  restored-IsSettled :
      (p : Protocol) (s s' : Supervisor) (e : LifecycleError)
      (r : Supervisor × Outcome LifecycleError (Unit {0}))
      → s.active_set ≡ true
      → s'.specs ≡ s.specs
      → s'.active_set ≡ false
      → IsTaken s.active s' r
      → IsSettled p s (restored outside p s.active e r)
  unfolding restored
  restored-IsSettled p s s' e r had same off (specs, inl (done, (on, back))) =
      rw done (specs ∙ same, inr ((start_failed p e, refl), inr (on ∙ sym had, back)))
  restored-IsSettled p s s' e r had same off (specs, inr ((error, fails), on, back)) =
      rw fails (specs ∙ same, inr ((restore_failed p e s.active error, refl), inl (on ∙ off)))

  finished-IsSettled :
      (p : Protocol) (s s' : Supervisor) (r : Supervisor × Outcome LifecycleError (Unit {0}))
      → s'.specs ≡ s.specs
      → s'.active_set ≡ false
      → IsTaken p s' r
      → IsSettled p s (finished outside p s.active s.active_set r)
  unfolding finished
  finished-IsSettled p s s' r same off (specs, inl (done, on)) =
      rw done (specs ∙ same, inl (refl, on))
  finished-IsSettled p s s' r same off (specs, inr ((e, fails), on, back)) =
      elim (Bool-cases s.active_set) [
        | inl had ↦
            let again = restore-IsTaken r.0 s.active in
            let settled =
              restored-IsSettled p s r.0 e (restore_locked outside r.0 s.active) had (specs ∙ same)
                (on ∙ off) again in
            let eq : finished outside p s.active s.active_set r
                ≡ restored outside p s.active e (restore_locked outside r.0 s.active) =
              rw (fails, had) refl in
            rw eq settled
        | inr had ↦ rw (fails, had) (specs ∙ same, inr ((start_failed p e, refl), inl (on ∙ off)))
      ]

  replace-IsSettled :
      (p : Protocol) (s : Supervisor) (spec : ProtocolLifecycleSpec)
      (r : Supervisor × Outcome LifecycleError (Unit {0}))
      → IsStopped s r
      → IsSettled p s (replace outside p s.active s.active_set spec r)
  unfolding replace
  replace-IsSettled p s spec r (same, inl (done, off)) = rw done (
      finished-IsSettled p s r.0 (taken outside p (start_locked outside r.0 spec)) same off
        (start-IsTaken p r.0 spec))
  replace-IsSettled p s spec r (same, inr ((e, fails), on, back, process)) =
      rw fails (same, inr ((stop_failed s.active e, refl), inr (on, back)))

  -- Activate leaves the specifications, and either it returns no error and the protocol that was
  -- asked for is active, or it returns an error and the protocol that was active before is active
  -- or none is: a failed call never leaves a protocol that the caller had not asked for.
  pub activate-IsSettled : (s : Supervisor) (p : Protocol) → IsSettled p s (activate outside s p)
  unfolding activate activate_known
  activate-IsSettled s p = elim (Bool-cases (s.active_set && s.active == p)) [
    | inl running ↦ rw running (refl, inl (refl, (ground arith, ground (arith, eq_iff s.active p))))
    | inr other ↦ elim (Option-cases (lookup p s.specs)) [
      | inl e ↦ rw (other, e) (refl, inr ((no_spec p, refl), inr (refl, refl)))
      | inr (spec, e) ↦ elim (Bool-cases s.active_set) [
        | inl on ↦
            let settled =
              replace-IsSettled p s spec (stop_locked outside s) (stop_locked-IsStopped s) in
            let eq : activate outside s p
                ≡ replace outside p s.active s.active_set spec (stop_locked outside s) =
              rw (other, e, on) refl in
            rw eq settled
        | inr off ↦
            let settled = replace-IsSettled p s spec (s, ok tt) (refl, inl (refl, off)) in
            let eq : activate outside s p
                ≡ replace outside p s.active s.active_set spec (s, ok tt) =
              rw (other, e, off) refl in
            rw eq settled
      ]
    ]
  ]

  -- A process that stops and whose stop command then fails stays noted as active: Stop returns the
  -- error, and asking for the same protocol again answers without an error and makes no call.
  pub stop-half :
      (s : Supervisor) (q : ℕ) (spec : ProtocolLifecycleSpec) (e : Text)
      → s.active_set ≡ true
      → s.process ≡ some q
      → outside.stop s.calls q ≡ none
      → lookup s.active s.specs ≡ some spec
      → (spec.stop.name == []) ≡ false
      → outside.run (suc s.calls) spec.stop ≡ some e
      → ((stop outside s).1 ≡ err (failed e))
        × IsRunning s.active (stop outside s).0
        × (activate outside (stop outside s).0 s.active ≡ ((stop outside s).0, ok tt))
  unfolding stop stop_locked stop_process stop_command cleared activate
  stop-half s q spec e on running stopped known named fails =
      let eq : stop outside s ≡ (record s { calls = suc (suc s.calls) }, err (failed e)) =
        rw (on, running, stopped, known, named, fails) refl in
      rw eq (refl, (on, refl), rw (on, eq_refl s.active) refl)
