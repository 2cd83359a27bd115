-- ===== src/Edge/Failover.antt =====
-- The loop of HandleConnection in internal/edge/runtime.go over the ranked candidates.
use anix_ops_sd_wan.Base.{
  ℕ, suc, ap, ◌+◌, Text, ◌≡◌, refl, ◌⊎◌, inl, inr, Option, none, some, List, [], ◌∷◌, ◌++◌, length,
  Outcome, Outcome-cases, ok, err,
}
use anix_ops_sd_wan.Edge.{Candidate, EdgeError}
use anix_ops_sd_wan.Edge.Runtime.{
  EgressTarget, Dialed, dial_error, nil_connection, connected, Attempt, resolve_failed, dial_failed,
  dial_nil, Selected, noting, try_candidates,
}

Dialed-cases :
    (d : Dialed)
    → ((reason : Text) × (d ≡ dial_error reason))
      ⊎ ((d ≡ nil_connection) ⊎ ((egress : ℕ) × (d ≡ connected egress)))
Dialed-cases (dial_error reason) = inl (reason, refl)
Dialed-cases nil_connection = inr (inl refl)
Dialed-cases (connected egress) = inr (inr (egress, refl))

module _ (resolve : Candidate → Outcome EdgeError EgressTarget)
    (dial : ℕ → EgressTarget → Dialed) where
  -- Every one of these candidates fails, with this attempt noted for it, from `n` dials on to `m`.
  pub data Fails : ℕ → List Candidate → List Attempt → ℕ → Type 0 where
    done : {n : ℕ} → Fails n [] [] n
    unresolved :
        {n m : ℕ} {cs : List Candidate} {attempts : List Attempt} (c : Candidate) (e : EdgeError)
        → resolve c ≡ err e
        → Fails n cs attempts m
        → Fails n (c ∷ cs) (resolve_failed c.id e ∷ attempts) m
    refused :
        {n m : ℕ} {cs : List Candidate} {attempts : List Attempt} (c : Candidate) (t : EgressTarget)
        (reason : Text)
        → resolve c ≡ ok t
        → dial n t ≡ dial_error reason
        → Fails (n + 1) cs attempts m
        → Fails n (c ∷ cs) (dial_failed t.node_id reason ∷ attempts) m
    nil :
        {n m : ℕ} {cs : List Candidate} {attempts : List Attempt} (c : Candidate) (t : EgressTarget)
        → resolve c ≡ ok t
        → dial n t ≡ nil_connection
        → Fails (n + 1) cs attempts m
        → Fails n (c ∷ cs) (dial_nil t.node_id ∷ attempts) m

  -- The candidates before the selected one all fail, and it resolves and connects.
  pub record Reaches (n : ℕ) (cs : List Candidate) (attempts : List Attempt) (s : Selected)
      : Type 0 where
    pub before : List Candidate
    pub behind : List Candidate
    pub dials : ℕ
    pub order : cs ≡ before ++ (s.candidate ∷ behind)
    pub failed : Fails n before attempts dials
    pub resolved : resolve s.candidate ≡ ok s.target
    pub dialed : dial dials s.target ≡ connected s.egress

  abbrev pub IsTrial : ℕ → List Candidate → List Attempt × Option Selected → Type 0
  IsTrial n cs (attempts, none) = (m : ℕ) × Fails n cs attempts m
  IsTrial n cs (attempts, some s) = Reaches n cs attempts s

  abbrev tried : ℕ → List Candidate → List Attempt × Option Selected
  tried = try_candidates resolve dial

  extend :
      (n n' : ℕ) (c : Candidate) (cs : List Candidate) (a : Attempt)
      → ((xs : List Candidate) (attempts : List Attempt) (m : ℕ)
          → Fails n' xs attempts m
          → Fails n (c ∷ xs) (a ∷ attempts) m)
      → (p : List Attempt × Option Selected) → IsTrial n' cs p
      → IsTrial n (c ∷ cs) (noting a p)
  extend n n' c cs a f (attempts, none) (m, h) = (m, f cs attempts m h)
  extend n n' c cs a f (attempts, some s) r = record {
    before = c ∷ r.before;
    behind = r.behind;
    dials = r.dials;
    order = ap (◌∷◌ c) r.order;
    failed = f r.before attempts r.dials r.failed;
    resolved = r.resolved;
    dialed = r.dialed;
  }

  -- The loop over the candidates either finds the first that resolves and connects, after one
  -- failed attempt for each before it, or has failed attempts for all. The number of a dial is the
  -- number of dials before it.
  pub trial : (n : ℕ) (cs : List Candidate) → IsTrial n cs (tried n cs)
  unfolding try_candidates
  trial n [] = (n, done)
  trial n (c ∷ cs) = elim (Outcome-cases (resolve c)) [
    | inr (e, failed) ↦
        rw (failed, try_candidates)
          (extend n n c cs (resolve_failed c.id e) (λ xs attempts m h. unresolved c e failed h)
            (tried n cs) (trial n cs))
    | inl (t, resolved) ↦ elim (Dialed-cases (dial n t)) [
      | inl (reason, e) ↦
          rw (resolved, e, try_candidates)
            (extend n (n + 1) c cs (dial_failed t.node_id reason)
              (λ xs attempts m h. refused c t reason resolved e h) (tried (n + 1) cs)
              (trial (n + 1) cs))
      | inr (inl e) ↦
          rw (resolved, e, try_candidates)
            (extend n (n + 1) c cs (dial_nil t.node_id) (λ xs attempts m h. nil c t resolved e h)
              (tried (n + 1) cs) (trial (n + 1) cs))
      | inr (inr (egress, e)) ↦
          rw (resolved, e, try_candidates)
            (record {
              before = [];
              behind = cs;
              dials = n;
              order = refl;
              failed = done;
              resolved = resolved;
              dialed = e;
            })
    ]
  ]

  pub length-Fails :
      {n m : ℕ} {cs : List Candidate} {attempts : List Attempt}
      → Fails n cs attempts m
      → length attempts ≡ length cs
  length-Fails done = refl
  length-Fails (unresolved c e r f) = ap suc (length-Fails f)
  length-Fails (refused c t reason r d f) = ap suc (length-Fails f)
  length-Fails (nil c t r d f) = ap suc (length-Fails f)
