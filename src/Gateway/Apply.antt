-- ===== src/Gateway/Apply.antt =====
-- internal/linuxgw/apply.go: a configuration written and put into effect, with the roll-back of a
-- failure. What the writer and the runner answer are arguments; the runner may answer differently
-- each time, so it is given the number of the commands before.
use anix_ops_sd_wan.Base.{
  ℕ, suc, length, Text, str, ◌==◌, is_space, Bool, Option, none, some, List, [], ◌∷◌, ◌++◌,
  if◌then◌else◌, Outcome, ok, err, ◌>>=◌, ◌>>◌, reject,
}
use anix_ops_sd_wan.Net.{Net}
use anix_ops_sd_wan.Gateway.{
  Config, ConfigError, render_ip_route_commands, render_rollback_commands,
}
use anix_ops_sd_wan.Gateway.Files.{render_nftables, render_dns_masq}

with_word : Text → List Text → List Text
with_word [] words = words
with_word (c ∷ word) words = (c ∷ word) ∷ words

-- The word that the text begins with, none where it begins with a space, and the words behind it.
words_of : Text → Text × List Text
words_of [] = ([], [])
words_of (c ∷ s) =
    let words = words_of s in
    if is_space c then ([], with_word words.0 words.1) else (c ∷ words.0, words.1)

-- strings.Fields
unfoldable pub fields : Text → List Text
unfolding with_word words_of
fields s = let words = words_of s in with_word words.0 words.1

-- What a run of commands has done, and the command that failed with its error.
pub record Ran : Type 0 where
  pub done : List (List Text)
  pub failed : Option (Text × Text)

module _ (runner : ℕ → List Text → Option Text) where
  unfoldable pub run_fields : ℕ → Text → List Text → (ℕ → Ran) → Ran
  run_fields n command [] next = next n
  run_fields n command (name ∷ args) next = elim (runner n (name ∷ args)) [
    | some why ↦ record { done = []; failed = some (command, why) }
    | none ↦ record (next (suc n)) { done = (name ∷ args) ∷ (next (suc n)).done }
  ]

  -- for _, command := range commands { if err := runShellFields(...); err != nil { return } }
  unfoldable pub run_all : List Text → ℕ → Ran
  unfolding run_fields
  run_all [] n = record { done = []; failed = none }
  run_all (command ∷ commands) n =
      run_fields n command (fields command) (λ next. run_all commands next)

pub record ApplyPaths : Type 0 where
  pub nftables_path : Text
  pub dns_masq_path : Text

pub data RollbackError : Type 0 where
  not_rendered : ConfigError → RollbackError
  rollback_command_failed : Text → Text → RollbackError

pub data ApplyError : Type 0 where
  nftables_path_required dns_masq_path_required : ApplyError
  config_invalid : ConfigError → ApplyError
  write_nftables_failed write_dns_masq_failed apply_nftables_failed : Text → ApplyError
  route_command_failed : Text → Text → ApplyError
  reload_failed : Text → ApplyError
  rollback_failed : ApplyError → RollbackError → ApplyError

-- What a call has written and run, each in its order, and how it ends.
pub record Applied : Type 0 where
  pub written : List (Text × Text)
  pub ran : List (List Text)
  pub result : Outcome ApplyError (Unit {0})

-- The texts and the commands of a configuration.
pub record Rendered : Type 0 where
  pub nftables : Text
  pub dns_masq : Text
  pub routes : List Text

refusing : {A : Type 0} → Outcome ConfigError A → Outcome ApplyError A
refusing (err why) = err (config_invalid why)
refusing (ok a) = ok a

unfoldable pub rendered :
    (Text → Text) → (Text → Bool) → Net → ApplyPaths → Config → Outcome ApplyError Rendered
unfolding refusing
rendered quote is_ip6 net paths c = do
  reject (paths.nftables_path == []) nftables_path_required
  reject (paths.dns_masq_path == []) dns_masq_path_required
  nftables ← refusing (render_nftables quote is_ip6 net c)
  dns_masq ← refusing (render_dns_masq net c)
  routes ← refusing (render_ip_route_commands net c)
  ok (record { nftables = nftables; dns_masq = dns_masq; routes = routes })

-- The calls of the runner in a run that has made `done` of them well.
unfoldable pub calls_of : Ran → ℕ
calls_of r = elim r.failed [ none ↦ length r.done | some why ↦ suc (length r.done) ]

module _ (runner : ℕ → List Text → Option Text) where
  unfoldable pub ended :
      List (Text × Text)
      → List (List Text)
      → ApplyError
      → Option (Text × Text)
      → List (List Text)
      → Applied
  ended written ran why none undone = record {
    written = written;
    ran = ran ++ undone;
    result = err why;
  }
  ended written ran why (some (command, again)) undone = record {
    written = written;
    ran = ran ++ undone;
    result = err (rollback_failed why (rollback_command_failed command again));
  }

  unfoldable pub undoing_run :
      Outcome ConfigError (List Text)
      → List (Text × Text)
      → List (List Text)
      → ℕ
      → ApplyError
      → Applied
  undoing_run (err bad) written ran n why = record {
    written = written;
    ran = ran;
    result = err (rollback_failed why (not_rendered bad));
  }
  undoing_run (ok commands) written ran n why =
      let r = run_all runner commands n in ended written ran why r.failed r.done

  -- maybeRollback after nftables was applied: n calls of the runner came before.
  unfoldable pub maybe_rollback :
      Net → Config → Bool → List (Text × Text) → List (List Text) → ℕ → ApplyError → Applied
  unfolding ended undoing_run
  maybe_rollback net c rollback_on_error written ran n why =
      if rollback_on_error
      then undoing_run (render_rollback_commands net c) written ran n why
      else record { written = written; ran = ran; result = err why }

  abbrev pub reload : List Text
  reload = str "systemctl" ∷ str "reload" ∷ str "dnsmasq" ∷ []

  -- What follows the route commands.
  unfoldable pub reloading : Net → Config → Bool → List (Text × Text) → List Text → Ran → Applied
  reloading net c rollback_on_error written nft r = elim r.failed [
    | some failure ↦
        maybe_rollback net c rollback_on_error written (nft ∷ r.done) (suc (calls_of r))
          (route_command_failed failure.0 failure.1)
    | none ↦ elim (runner (suc (calls_of r)) reload) [
      | some why ↦
          maybe_rollback net c rollback_on_error written (nft ∷ r.done) (suc (suc (calls_of r)))
            (reload_failed why)
      | none ↦ record { written = written; ran = nft ∷ (r.done ++ (reload ∷ [])); result = ok tt }
    ]
  ]

  unfoldable pub activating :
      Net → Config → ApplyPaths → Bool → List (Text × Text) → List Text → Applied
  activating net c paths rollback_on_error written routes =
      let nft = str "nft" ∷ str "-f" ∷ paths.nftables_path ∷ [] in
      elim (runner 0 nft) [
        | some why ↦ record {
          written = written;
          ran = [];
          result = err (apply_nftables_failed why);
        }
        | none ↦ reloading net c rollback_on_error written nft (run_all runner routes 1)
      ]

  module _ (writer : Text → Option Text) where
    unfoldable pub writing : Net → Config → ApplyPaths → Bool → Rendered → Applied
    writing net c paths rollback_on_error files = elim (writer paths.nftables_path) [
      | some why ↦ record { written = []; ran = []; result = err (write_nftables_failed why) }
      | none ↦
          let first : Text × Text = (paths.nftables_path, files.nftables) in
          elim (writer paths.dns_masq_path) [
            | some why ↦ record {
              written = first ∷ [];
              ran = [];
              result = err (write_dns_masq_failed why);
            }
            | none ↦
                activating net c paths rollback_on_error
                  (first ∷ (paths.dns_masq_path, files.dns_masq) ∷ []) files.routes
          ]
    ]

    -- Apply (rollback_on_error false) and ApplyWithRollback (true).
    unfoldable pub apply :
        (Text → Text) → (Text → Bool) → Net → Config → ApplyPaths → Bool → Applied
    unfolding reloading activating writing
    apply quote is_ip6 net c paths rollback_on_error = elim (rendered quote is_ip6 net paths c) [
      | err why ↦ record { written = []; ran = []; result = err why }
      | ok files ↦ writing net c paths rollback_on_error files
    ]
