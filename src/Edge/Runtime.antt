-- ===== src/Edge/Runtime.antt =====
-- internal/edge/runtime.go: one ingress connection, from its token to an egress node. What the
-- resolver, the dialer and the two copies answer are arguments; a dial may answer differently each
-- time, so it is given the number of the dials before it.
use anix_ops_sd_wan.Base.{
  ℕ, ◌+◌, Text, is_blank, trim_space, Bool, true, false, Option, none, some, List, [], ◌∷◌,
  if◌then◌else◌, Outcome, ok, err, ◌>>=◌, ◌>>◌, reject,
}
use anix_ops_sd_wan.Base.Table.{Table, lookup, put}
use anix_ops_sd_wan.Edge.{
  Credential, Authenticator, WindowLimiter, HealthTracker, Candidate, EdgeError, node_required,
  region_required, address_required, duplicate_target, no_targets, no_target, id_required,
  authenticate, allow, candidates, rank,
}
use anix_ops_sd_wan.Edge.Handler.{IngressAssignment, limit_key, assignment_for}
use anix_ops_sd_wan.Edge.Forwarder.{ForwardStats, ForwardError}

pub record EgressTarget : Type 0 where
  pub node_id : Text
  pub region : Text
  pub address : Text

unfoldable pub validate_target : EgressTarget → Outcome EdgeError (Unit {0})
validate_target t = do
  reject (is_blank t.node_id) node_required
  reject (is_blank t.region) region_required
  reject (is_blank t.address) address_required

abbrev pub StaticEgressResolver : Type 0
StaticEgressResolver = Table EgressTarget

abbrev pub is_some : Option EgressTarget → Bool
is_some none = false
is_some (some t) = true

unfoldable pub add_targets :
    StaticEgressResolver → List EgressTarget → Outcome EdgeError StaticEgressResolver
add_targets r [] = ok r
add_targets r (t ∷ ts) =
    let rest = add_targets (put t.node_id t r) ts in
    do validate_target t; reject (is_some (lookup t.node_id r)) duplicate_target; rest

some_target : StaticEgressResolver → Outcome EdgeError StaticEgressResolver
some_target [] = err no_targets
some_target (t ∷ r) = ok (t ∷ r)

unfoldable pub new_static_egress_resolver :
    List EgressTarget → Outcome EdgeError StaticEgressResolver
unfolding some_target
new_static_egress_resolver targets = do r ← add_targets [] targets; some_target r

found_target : Option EgressTarget → Outcome EdgeError EgressTarget
found_target none = err no_target
found_target (some t) = do validate_target t; ok t

unfoldable pub resolve_egress : StaticEgressResolver → Candidate → Outcome EdgeError EgressTarget
unfolding found_target
resolve_egress r c = do reject (is_blank c.id) id_required; found_target (lookup c.id r)

-- What a dial answers; a connection is known by a number.
pub data Dialed : Type 0 where
  dial_error : Text → Dialed
  nil_connection : Dialed
  connected : ℕ → Dialed

pub data Attempt : Type 0 where
  resolve_failed : Text → EdgeError → Attempt
  dial_failed : Text → Text → Attempt
  dial_nil : Text → Attempt

pub record Selected : Type 0 where
  pub candidate : Candidate
  pub target : EgressTarget
  pub egress : ℕ

pub record IngressForwardResult : Type 0 where
  pub credential : Credential
  pub assignment : IngressAssignment
  pub target : EgressTarget
  pub stats : ForwardStats

pub data Handled : Type 0 where
  client_missing credential_invalid rate_limited : Handled
  unranked : EdgeError → Handled
  no_reachable_egress : List Attempt → Handled
  forwarded : IngressForwardResult → Option ForwardError → Handled

pub record IngressRuntime : Type 0 where
  pub auth : Authenticator
  pub limiter : WindowLimiter
  pub tracker : HealthTracker
  -- nanoseconds
  pub ttl : ℕ

-- One more failed attempt before what the rest of the loop comes to.
abbrev pub noting : Attempt → List Attempt × Option Selected → List Attempt × Option Selected
noting a (attempts, selected) = (a ∷ attempts, selected)

module _ (resolve : Candidate → Outcome EdgeError EgressTarget)
    (dial : ℕ → EgressTarget → Dialed) where
  -- The loop over the candidates, `n` dials being made already: the failed attempts, and what
  -- connected.
  unfoldable pub try_candidates : ℕ → List Candidate → List Attempt × Option Selected
  try_candidates n [] = ([], none)
  try_candidates n (c ∷ cs) =
      let next = try_candidates n cs in
      let next_dial = try_candidates (n + 1) cs in
      elim (resolve c) [
        | err e ↦ noting (resolve_failed c.id e) next
        | ok target ↦ elim (dial n target) [
          | dial_error reason ↦ noting (dial_failed target.node_id reason) next_dial
          | nil_connection ↦ noting (dial_nil target.node_id) next_dial
          | connected egress ↦
              ([], some (record { candidate = c; target = target; egress = egress }))
        ]
      ]

module _ (resolve : Candidate → Outcome EdgeError EgressTarget) (dial : ℕ → EgressTarget → Dialed)
    (forward : ℕ → ForwardStats × Option ForwardError) where
  conclude : IngressRuntime → Credential → ℕ → List Attempt × Option Selected → Handled
  conclude r c now (attempts, none) = no_reachable_egress attempts
  conclude r c now (attempts, some s) =
      let (stats, error) = forward s.egress in
      forwarded
        (record {
          credential = c;
          assignment = assignment_for c s.candidate (now + r.ttl);
          target = s.target;
          stats = stats;
        })
        error

  serve_ranked : IngressRuntime → Credential → ℕ → Outcome EdgeError (List Candidate) → Handled
  serve_ranked r c now (err e) = unranked e
  serve_ranked r c now (ok cs) = conclude r c now (try_candidates resolve dial 0 cs)

  serve_known : IngressRuntime → ℕ → Option Credential → IngressRuntime × Handled
  serve_known r now none = (r, credential_invalid)
  serve_known r now (some c) =
      let (limiter, granted) = allow r.limiter (limit_key c) now in
      let r' = record r { limiter = limiter } in
      (
        r',
        (if granted then serve_ranked r c now (rank (candidates r.tracker now)) else rate_limited),
      )

  -- The runtime after the connection, and how the connection was handled. Every branch but that of
  -- a missing client closes the client: the failures by their own call, the last in
  -- ForwardBidirectional.
  unfoldable pub handle_connection : IngressRuntime → Bool → Text → ℕ → IngressRuntime × Handled
  unfolding serve_known serve_ranked conclude
  handle_connection r client token now =
      if client
      then serve_known r now (authenticate r.auth (trim_space token))
      else (r, client_missing)
