-- ===== src/Gateway/Runs.antt =====
-- What Apply and the roll-back of internal/linuxgw/apply.go have run when they end.
use mathlib.Core.List.{append-nil}
use anix_ops_sd_wan.Base.{
  ℕ, suc, Text, str, Bool, true, false, Option, none, some, Option-cases, List, [], ◌∷◌, ◌++◌, ◌≡◌,
  ◌≢◌, refl, ap, sym, ◌∙◌, inl, inr, Outcome, ok, err, Outcome-cases,
}
use anix_ops_sd_wan.Net.{Net}
use anix_ops_sd_wan.Gateway.{Config, ConfigError, render_rollback_commands}
use anix_ops_sd_wan.Gateway.Apply.{
  fields, Ran, run_fields, run_all, ApplyPaths, ApplyError, rollback_failed,
  rollback_command_failed, route_command_failed, reload_failed, Applied, Rendered, rendered,
  calls_of, ended, undoing_run, maybe_rollback, reload, reloading, activating, writing, apply,
}

-- A command that is not blank runs as its fields.
abbrev pub in_front : List Text → List (List Text) → List (List Text)
in_front [] rest = rest
in_front (name ∷ args) rest = (name ∷ args) ∷ rest

abbrev pub runs : List Text → List (List Text)
runs [] = []
runs (command ∷ commands) = in_front (fields command) (runs commands)

module _ (runner : ℕ → List Text → Option Text) where
  -- The commands are run in their order up to the first that fails.
  abbrev IsPrefix : List (List Text) → Ran → Type 0
  IsPrefix all r =
      (rest : List (List Text)) × (r.done ++ rest ≡ all)
      × (r.failed ≡ none → rest ≡ [])
      × ((f : Text × Text) → r.failed ≡ some f → rest ≢ [])

  run_fields-IsPrefix :
      (n : ℕ) (command : Text) (args : List Text) (next : ℕ → Ran) (all : List (List Text))
      → ((k : ℕ) → IsPrefix all (next k))
      → IsPrefix (in_front args all) (run_fields runner n command args next)
  unfolding run_fields
  run_fields-IsPrefix n command [] next all h = h n
  run_fields-IsPrefix n command (name ∷ args) next all h =
      elim (Option-cases (runner n (name ∷ args))) [
        | inr (why, bad) ↦
            rw (run_fields, bad) ((name ∷ args) ∷ all, refl, (λ e. cc), (λ f e k. cc))
        | inl good ↦
            let (rest, cut, whole, stopped) = h (suc n) in
            rw (run_fields, good) (rest, ap (◌∷◌ (name ∷ args)) cut, whole, stopped)
      ]

  run_all-IsPrefix :
      (commands : List Text) (n : ℕ) → IsPrefix (runs commands) (run_all runner commands n)
  unfolding run_all
  run_all-IsPrefix [] n = ([], refl, (λ e. refl), (λ f e k. cc))
  run_all-IsPrefix (command ∷ commands) n =
      run_fields-IsPrefix n command (fields command) (λ next. run_all runner commands next)
        (runs commands) (run_all-IsPrefix commands)

  -- The roll-back after an error: what it runs, behind what ran before, and how the call ends.
  abbrev pub IsRollback : List (List Text) → List (List Text) → ApplyError → Applied → Type 0
  IsRollback ran undo why a =
      (undone : List (List Text)) × (rest : List (List Text)) × (a.ran ≡ ran ++ undone)
      × (undone ++ rest ≡ undo)
      × (rest ≡ [] → a.result ≡ err why)
      × (rest ≢ []
          → (command : Text) × (again : Text) × (a.result
              ≡ err (rollback_failed why (rollback_command_failed command again))))

  maybe_rollback-IsRollback :
      (net : Net) (c : Config) (written : List (Text × Text)) (ran : List (List Text)) (n : ℕ)
      (why : ApplyError) (commands : List Text)
      → render_rollback_commands net c ≡ ok commands
      → IsRollback ran (runs commands) why (maybe_rollback runner net c true written ran n why)
  unfolding maybe_rollback undoing_run ended
  maybe_rollback-IsRollback net c written ran n why commands e =
      let r = run_all runner commands n in
      let (rest, cut, whole, stopped) = run_all-IsPrefix commands n in
      elim (Option-cases r.failed) [
        | inl fine ↦
            rw (maybe_rollback, e, undoing_run, fine)
              (r.done, rest, refl, cut, (λ k. refl), (λ k. absurd (k (whole fine))))
        | inr (f, bad) ↦
            rw (maybe_rollback, e, undoing_run, bad)
              (r.done, rest, refl, cut, (λ k. absurd (stopped f bad k)), (λ k. (f.0, f.1, refl)))
      ]

  ended-fails :
      (written : List (Text × Text)) (ran undone : List (List Text)) (why : ApplyError)
      (o : Option (Text × Text))
      → (ended runner written ran why o undone).result ≢ ok tt
  unfolding ended
  ended-fails written ran undone why none = λ e. cc
  ended-fails written ran undone why (some f) = λ e. cc

  undoing_run-fails :
      (o : Outcome ConfigError (List Text)) (written : List (Text × Text)) (ran : List (List Text))
      (n : ℕ) (why : ApplyError)
      → (undoing_run runner o written ran n why).result ≢ ok tt
  unfolding undoing_run
  undoing_run-fails (err bad) written ran n why = λ e. cc
  undoing_run-fails (ok commands) written ran n why =
      let r = run_all runner commands n in ended-fails written ran r.done why r.failed

  maybe_rollback-fails :
      (net : Net) (c : Config) (back : Bool) (written : List (Text × Text)) (ran : List (List Text))
      (n : ℕ) (why : ApplyError)
      → (maybe_rollback runner net c back written ran n why).result ≢ ok tt
  unfolding maybe_rollback
  maybe_rollback-fails net c false written ran n why = λ e. cc
  maybe_rollback-fails net c true written ran n why =
      undoing_run-fails (render_rollback_commands net c) written ran n why

no_error : (why : ApplyError) → ◌≡◌ {A = Outcome ApplyError (Unit {0})} (err why) (ok tt) → ⊥
no_error why e = cc

module _ (runner : ℕ → List Text → Option Text) (writer : Text → Option Text) (quote : Text → Text)
    (is_ip6 : Text → Bool) (net : Net) (c : Config) (paths : ApplyPaths) (back : Bool) where
  -- The call that loads the nftables file.
  abbrev pub load : List Text
  load = str "nft" ∷ str "-f" ∷ paths.nftables_path ∷ []

  reloading_complete :
      (written : List (Text × Text)) (commands : List Text)
      → (reloading runner net c back written load (run_all runner commands 1)).result ≡ ok tt
      → ((reloading runner net c back written load (run_all runner commands 1)).written ≡ written)
        × ((reloading runner net c back written load (run_all runner commands 1)).ran
            ≡ load ∷ (runs commands ++ (reload runner ∷ [])))
  unfolding reloading
  reloading_complete written commands h =
      let r = run_all runner commands 1 in
      let (rest, cut, whole, stopped) = run_all-IsPrefix runner commands 1 in
      elim (Option-cases r.failed) [
        | inr (f, bad) ↦ absurd (
            maybe_rollback-fails runner net c back written (load ∷ r.done) (suc (calls_of r))
              (route_command_failed f.0 f.1) (rw (reloading, bad) at h))
        | inl fine ↦ elim (Option-cases (runner (suc (calls_of r)) (reload runner))) [
          | inr (why, bad) ↦ absurd (
              maybe_rollback-fails runner net c back written (load ∷ r.done)
                (suc (suc (calls_of r))) (reload_failed why) (rw (reloading, fine, bad) at h))
          | inl good ↦
              let all : r.done ≡ runs commands =
                sym (append-nil r.done) ∙ ap (◌++◌ r.done) (sym (whole fine)) ∙ cut in
              rw (reloading, fine, good, all) (refl, refl)
        ]
      ]

  -- A call of Apply or ApplyWithRollback that gives no error has written both files as they are
  -- rendered, and has run the load of nftables, then every route command in its order, then the
  -- reload of dnsmasq, and nothing else.
  pub apply_complete :
      (apply runner writer quote is_ip6 net c paths back).result ≡ ok tt
      → let a = apply runner writer quote is_ip6 net c paths back in
        (files : Rendered) × (rendered quote is_ip6 net paths c ≡ ok files)
        × (a.written
            ≡ (paths.nftables_path, files.nftables) ∷ (paths.dns_masq_path, files.dns_masq) ∷ [])
        × (a.ran ≡ load ∷ (runs files.routes ++ (reload runner ∷ [])))
  unfolding apply writing activating
  apply_complete h = elim (Outcome-cases (rendered quote is_ip6 net paths c)) [
    | inr (why, bad) ↦ absurd (no_error _ (rw (apply, bad) at h))
    | inl (files, made) ↦ elim (Option-cases (writer paths.nftables_path)) [
      | inr (why, bad) ↦ absurd (no_error _ (rw (apply, made, writing, bad) at h))
      | inl first ↦ elim (Option-cases (writer paths.dns_masq_path)) [
        | inr (why, bad) ↦ absurd (no_error _ (rw (apply, made, writing, first, bad) at h))
        | inl second ↦ elim (Option-cases (runner 0 load)) [
          | inr (why, bad) ↦
              absurd (no_error _ (rw (apply, made, writing, first, second, activating, bad) at h))
          | inl loaded ↦
              let written =
                (paths.nftables_path, files.nftables)
                ∷ (paths.dns_masq_path, files.dns_masq)
                ∷ [] in
              let done =
                reloading_complete written files.routes
                  (rw (apply, made, writing, first, second, activating, loaded) at h) in
              rw (apply, made, writing, first, second, activating, loaded)
                (files, refl, done.0, done.1)
        ]
      ]
    ]
  ]

  -- Where the files are written, nftables is loaded and a route command then fails, a call with
  -- rollback_on_error runs the roll-back commands in their order up to the first that fails; it
  -- gives the error of the route command where all of them run, and tells of both errors else.
  pub apply-rolls_back :
      (files : Rendered) (undo : List Text) (failure : Text × Text)
      → rendered quote is_ip6 net paths c ≡ ok files
      → writer paths.nftables_path ≡ none
      → writer paths.dns_masq_path ≡ none
      → runner 0 load ≡ none
      → (run_all runner files.routes 1).failed ≡ some failure
      → render_rollback_commands net c ≡ ok undo
      → IsRollback runner
          (load ∷ (run_all runner files.routes 1).done)
          (runs undo)
          (route_command_failed failure.0 failure.1)
          (apply runner writer quote is_ip6 net c paths true)
  unfolding apply writing activating reloading
  apply-rolls_back files undo failure made first second loaded failed e =
      let r = run_all runner files.routes 1 in
      rw (apply, made, writing, first, second, activating, loaded, reloading, failed)
        (maybe_rollback-IsRollback runner net c _ (load ∷ r.done) (suc (calls_of r)) _ undo e)
