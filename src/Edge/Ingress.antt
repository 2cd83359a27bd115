-- ===== src/Edge/Ingress.antt =====
-- The assignment handler (internal/edge/handler.go) and HandleConnection (internal/edge/runtime.go):
-- who is let in and where to.
use anix_ops_sd_wan.Base.{
  ℕ, ◌+◌, Text, trim_space, true, false, ◌≡◌, refl, subst, inl, inr, Option, none, some, List,
  arith, Option-cases, In, length, Outcome, Outcome-cases, ok,
}
use anix_ops_sd_wan.Edge.{
  Credential, Candidate, EdgeError, authenticate, allow, candidates, candidate_before, rank, pick,
}
use anix_ops_sd_wan.Edge.Handler.{
  IngressHandler, EdgeRequest, IngressAssignment, status_ok, edge_token, limit_key, assignment_for,
  handle_assignment,
}
use anix_ops_sd_wan.Edge.Forwarder.{ForwardStats, ForwardError}
use anix_ops_sd_wan.Edge.Runtime.{
  EgressTarget, Dialed, Attempt, Selected, IngressRuntime, IngressForwardResult, Handled, forwarded,
  no_reachable_egress, try_candidates, handle_connection,
}
use anix_ops_sd_wan.Edge.Ranking.{pick_best}
use anix_ops_sd_wan.Edge.Failover.{Fails, Reaches, IsTrial, trial, length-Fails}

-- A node that is healthy at this time, and none that is healthy comes before it by load and ID.
abbrev pub IsBestNode : IngressHandler → ℕ → Candidate → Type 0
IsBestNode h now best =
    In best (candidates h.tracker now)
    × (best.healthy ≡ true)
    × ((d : Candidate)
        → In d (candidates h.tracker now)
        → d.healthy ≡ true
        → candidate_before d best ≡ false)

picked_assignment :
    (h : IngressHandler) (r : EdgeRequest) (now : ℕ) (a : IngressAssignment)
    → (handle_assignment h r now).1 ≡ status_ok a
    → (c : Credential) × (best : Candidate) × (r.is_post ≡ true)
      × (authenticate h.auth (edge_token r) ≡ some c)
      × ((allow h.limiter (limit_key c) now).1 ≡ true)
      × (pick (candidates h.tracker now) ≡ ok best)
      × (a ≡ assignment_for c best (now + h.ttl))
unfolding handle_assignment
picked_assignment h r now a e = elim (Option-cases (authenticate h.auth (edge_token r))) [
  | inl unknown ↦ absurd (ground arith)
  | inr (c, known) ↦ elim (Outcome-cases (pick (candidates h.tracker now))) [
    | inr (error, failed) ↦ absurd (ground arith)
    | inl (best, found) ↦ (c, best, ground arith, known, ground arith, found, ground arith)
  ]
]

-- An assignment is given only to a POST with the token of a known credential that the rate limiter
-- lets through under the credential's tenant and device; it names that tenant and device and the
-- best healthy node, and it is over one lifetime after the request.
pub assignment_given :
    (h : IngressHandler) (r : EdgeRequest) (now : ℕ) (a : IngressAssignment)
    → (handle_assignment h r now).1 ≡ status_ok a
    → (c : Credential) × (best : Candidate) × (r.is_post ≡ true)
      × (authenticate h.auth (edge_token r) ≡ some c)
      × ((allow h.limiter (limit_key c) now).1 ≡ true)
      × IsBestNode h now best
      × (a ≡ assignment_for c best (now + h.ttl))
assignment_given h r now a e =
    let (c, best, p, known, granted, found, same) = picked_assignment h r now a e in
    (c, best, p, known, granted, pick_best (candidates h.tracker now) best found, same)

module _ (resolve : Candidate → Outcome EdgeError EgressTarget) (dial : ℕ → EgressTarget → Dialed)
    (forward : ℕ → ForwardStats × Option ForwardError) (r : IngressRuntime) (token : Text)
    (now : ℕ) where
  abbrev pub handled : Handled
  handled = (handle_connection resolve dial forward r true token now).1

  -- A connection that was forwarded: whose it is, and over which node of the ranking.
  pub record IsForwarded (result : IngressForwardResult) (error : Option ForwardError)
      : Type 0 where
    pub ranking : List Candidate
    pub attempts : List Attempt
    pub selected : Selected
    pub known : authenticate r.auth (trim_space token) ≡ some result.credential
    pub granted : (allow r.limiter (limit_key result.credential) now).1 ≡ true
    pub ranked : rank (candidates r.tracker now) ≡ ok ranking
    pub first : Reaches resolve dial 0 ranking attempts selected
    pub assigned :
        result.assignment ≡ assignment_for result.credential selected.candidate (now + r.ttl)
    pub target : result.target ≡ selected.target
    pub copied : forward selected.egress ≡ (result.stats, error)

  -- A connection is forwarded only for a token (without its spaces) of a known credential that the
  -- limiter lets through, to the first node of the ranking of the healthy nodes that resolves and
  -- answers the dial, after one failed attempt at each node before it; the result names that
  -- credential, node and target, and carries what the copies gave.
  pub forwarded_first :
      (result : IngressForwardResult) (error : Option ForwardError)
      → handled ≡ forwarded result error
      → IsForwarded result error
  unfolding handle_connection
  forwarded_first result error e = elim (Option-cases (authenticate r.auth (trim_space token))) [
    | inl unknown ↦ absurd (ground arith)
    | inr (c, known) ↦ elim (Outcome-cases (rank (candidates r.tracker now))) [
      | inr (failure, failed) ↦ absurd (ground arith)
      | inl (ranking, ranked) ↦
          go c ranking known ranked (try_candidates resolve dial 0 ranking) refl
            (trial resolve dial 0 ranking)
    ]
  ]
    where
      go :
          (c : Credential) (ranking : List Candidate)
          → authenticate r.auth (trim_space token) ≡ some c
          → rank (candidates r.tracker now) ≡ ok ranking
          → (p : List Attempt × Option Selected) → try_candidates resolve dial 0 ranking ≡ p
          → IsTrial resolve dial 0 ranking p
          → IsForwarded result error
      go c ranking known ranked (attempts, none) tried t = absurd (ground arith)
      go c ranking known ranked (attempts, some s) tried t = record {
        ranking = ranking;
        attempts = attempts;
        selected = s;
        known = ground arith;
        granted = ground arith;
        ranked = ranked;
        first = t;
        assigned = ground arith;
        target = ground arith;
        copied = ground arith;
      }

  -- Where no node is reachable, every node of the ranking was tried and failed, each with its attempt
  -- in the error.
  pub unreachable_all_tried :
      (attempts : List Attempt)
      → handled ≡ no_reachable_egress attempts
      → (ranking : List Candidate) × (dials : ℕ) × (rank (candidates r.tracker now) ≡ ok ranking)
        × Fails resolve dial 0 ranking attempts dials
        × (length attempts ≡ length ranking)
  unfolding handle_connection
  unreachable_all_tried attempts e = elim (Option-cases (authenticate r.auth (trim_space token))) [
    | inl unknown ↦ absurd (ground arith)
    | inr (c, known) ↦ elim (Outcome-cases (rank (candidates r.tracker now))) [
      | inr (failure, failed) ↦ absurd (ground arith)
      | inl (ranking, ranked) ↦
          go ranking ranked c known (try_candidates resolve dial 0 ranking) refl
            (trial resolve dial 0 ranking)
    ]
  ]
    where
      go :
          (ranking : List Candidate)
          → rank (candidates r.tracker now) ≡ ok ranking
          → (c : Credential) → authenticate r.auth (trim_space token) ≡ some c
          → (p : List Attempt × Option Selected) → try_candidates resolve dial 0 ranking ≡ p
          → IsTrial resolve dial 0 ranking p
          → (ranking : List Candidate) × (dials : ℕ) × (rank (candidates r.tracker now)
              ≡ ok ranking)
            × Fails resolve dial 0 ranking attempts dials
            × (length attempts ≡ length ranking)
      go ranking ranked c known (noted, some s) tried t = absurd (ground arith)
      go ranking ranked c known (noted, none) tried (m, f) =
          let same : noted ≡ attempts = ground arith in
          (
            ranking,
            m,
            ranked,
            subst (λ (xs : List Attempt). Fails resolve dial 0 ranking xs m) same f,
            subst (λ (xs : List Attempt). length xs ≡ length ranking) same
                (length-Fails resolve dial f),
          )
