-- ===== src/Agent/Rounds.antt =====
-- The rounds of internal/agent/sync.go: which configuration is taken, and what is verified of it.
use anix_ops_sd_wan.Base.{
  Text, ◌==◌, true, Bool-cases, Option, none, some, List, [], ◌∷◌, map, ◌≡◌, refl, inl, inr, arith,
  ok, ◌>>=◌, >>=-succeeded,
}
use anix_ops_sd_wan.Base.Sorting.{All}
use anix_ops_sd_wan.Domain.{ConfigBundle}
use anix_ops_sd_wan.Domain.Selection.{select_config, choose, next_choice}
use anix_ops_sd_wan.Agent.Sync.{
  SignedBundle, next_verified, choose_verified, select_verified_config,
}

module _ (verify : SignedBundle → Option Text) (device_id : Text) where
  -- The bundle is signed, where it is for this device.
  abbrev pub IsSigned : SignedBundle → Type 0
  IsSigned c = (c.bundle.target_id == device_id) ≡ true → verify c ≡ none

  next_verified-choice :
      (selected next : Option ConfigBundle) (c : SignedBundle) (answer : Option Text)
      → next_verified verify selected c answer ≡ ok next
      → (answer ≡ none) × (next_choice selected c.bundle ≡ next)
  unfolding next_verified next_choice
  next_verified-choice selected next c (some why) h = ground (arith, h)
  next_verified-choice none next c none h = (refl, ground (arith, h))
  next_verified-choice (some s) next c none h = (refl, ground (arith, h))

  choose_verified-choice :
      (configs : List SignedBundle) (selected r : Option ConfigBundle)
      → choose_verified verify device_id selected configs ≡ ok r
      → (choose device_id selected (map SignedBundle.bundle configs) ≡ r) × All IsSigned configs
  unfolding choose_verified choose
  choose_verified-choice [] selected r h = (ground (arith, h), tt)
  choose_verified-choice (c ∷ configs) selected r h =
      let bundles = map SignedBundle.bundle configs in
      elim (Bool-cases (c.bundle.target_id == device_id)) [
        | inr other ↦
            let (chosen, signed) =
              choose_verified-choice configs selected r (ground (arith, h, other)) in
            (rw (choose, other) chosen, ((λ same. cc), signed))
        | inl same ↦
            let taken : (next_verified verify selected c (verify c) >>= λ next.
            choose_verified verify device_id next configs)
                ≡ ok r =
              rw same at h in
            let (next, e, passed) =
              >>=-succeeded (next_verified verify selected c (verify c))
                (λ next. choose_verified verify device_id next configs) taken in
            let (good, step) = next_verified-choice selected next c (verify c) passed in
            let (chosen, signed) = choose_verified-choice configs next r e in
            (rw (choose, same, step) chosen, ((λ t. good), signed))
      ]

  -- Where SyncSignedOnce gets a choice, it is the one that SyncOnce makes of the same bundles, and the
  -- verifier has accepted each of them that is for this device.
  pub select_verified_config-agrees :
      (configs : List SignedBundle) (choice : Option ConfigBundle)
      → select_verified_config verify configs device_id ≡ ok choice
      → (select_config (map SignedBundle.bundle configs) device_id ≡ choice) × All IsSigned configs
  unfolding select_verified_config select_config
  select_verified_config-agrees configs choice h = choose_verified-choice configs none choice h
