-- ===== src/Policy/Routing.antt =====
-- NewEngine and Evaluate of internal/policy/policy.go: which rule decides.
use mathlib.Core.List.{Permᴰ}
use anix_ops_sd_wan.Base.{
  Text, ◌==◌, less_text_asym, less_text_antisym, less_text_cotrans, ℤ, Bool, true, false, ◌&&◌, ◌≡◌,
  refl, sym, ap, ◌∙◌, ◌⊎◌, inl, inr, Option, none, some, List, [], ◌∷◌, arith, Option-cases, In,
  find_first, Outcome-cases, ok,
}
use anix_ops_sd_wan.Base.Sorting.{
  sort, In-sort, In-sort_of, IsOrder, find_first-sort, find_first-sort-none, In-perm, sort_unique,
}
use anix_ops_sd_wan.Net.{Net}
use anix_ops_sd_wan.Policy.{
  Rule, Request, Decision, Engine, no_decision, ranked, rule_before, validate, validate_all,
  new_engine, rule_matches, decide, evaluate_rules, evaluate,
}

-- The comparison by priority and ID is a strict weak order.
pub ranked_asym :
    (p : ℤ) (i : Text) (q : ℤ) (j : Text) → ranked p i q j ≡ true → ranked q j p i ≡ false
unfolding ranked
ranked_asym p i q j h = ground (arith, less_text_asym i j)

pub ranked_cotrans :
    (p : ℤ) (i : Text) (q : ℤ) (j : Text) (r : ℤ) (k : Text)
    → ranked q j p i ≡ false
    → ranked r k q j ≡ false
    → ranked r k p i ≡ false
unfolding ranked
ranked_cotrans p i q j r k h g = ground (arith, less_text_cotrans i j k)

pub ranked_tie :
    (p : ℤ) (i : Text) (q : ℤ) (j : Text) → ranked p i q j ≡ false → ranked q j p i ≡ false → i ≡ j
unfolding ranked
ranked_tie p i q j h g = ground (arith, less_text_antisym i j)

pub rule_before-IsOrder : IsOrder rule_before
rule_before-IsOrder = record {
  asym = λ a b. ranked_asym a.priority a.id b.priority b.id;
  cotrans = λ a b c. ranked_cotrans a.priority a.id b.priority b.id c.priority c.id;
}

module _ (net : Net) where
  -- The rule is of the request's tenant and matches it.
  abbrev pub applies : Request → Rule → Bool
  applies request rule = rule.tenant_id == request.tenant_id && rule_matches net rule request

  abbrev decision_of : Request → Option Rule → Decision
  decision_of request none = no_decision
  decision_of request (some rule) = decide rule request

  evaluate_rules-find_first :
      (rules : List Rule) (request : Request)
      → evaluate_rules net rules request ≡ decision_of request (find_first (applies request) rules)
  unfolding evaluate_rules find_first
  evaluate_rules-find_first [] request = refl
  evaluate_rules-find_first (rule ∷ rules) request =
      ground (arith, evaluate_rules-find_first rules request)

  pub new_engine-rules :
      (rules : List Rule) (e : Engine)
      → new_engine net rules ≡ ok e
      → e ≡ record { rules = sort rule_before rules }
  unfolding new_engine
  new_engine-rules rules e h = ground arith

  -- The decision is that of an applying rule of the list that no other applying rule precedes.
  abbrev pub DecidedBy : List Rule → Request → Decision → Rule → Type 0
  DecidedBy rules request d rule =
      In rule rules
      × (applies request rule ≡ true)
      × ((other : Rule)
          → In other rules
          → applies request other ≡ true
          → rule_before other rule ≡ false)
      × (d ≡ decide rule request)

  -- Some rule decides in this sense, or no rule of the list applies and the decision is empty.
  abbrev pub IsBestDecision : List Rule → Request → Decision → Type 0
  IsBestDecision rules request d =
      ((rule : Rule) × DecidedBy rules request d rule)
      ⊎ (((rule : Rule) → In rule rules → applies request rule ≡ false) × (d ≡ no_decision))

  -- An engine built from a list of rules decides by a rule of the list that is of the request's
  -- tenant and matches it, and that no other such rule precedes by priority and ID; where no rule
  -- of the list is of the tenant and matches, it leaves the request undecided.
  pub evaluate_best :
      (rules : List Rule) (e : Engine) (request : Request)
      → new_engine net rules ≡ ok e
      → IsBestDecision rules request (evaluate net e request)
  unfolding evaluate
  evaluate_best rules e request h =
      let eq = new_engine-rules rules e h in
      let found = find_first (applies request) (sort rule_before rules) in
      let value : evaluate_rules net e.rules request ≡ decision_of request found =
        rw eq (evaluate_rules-find_first (sort rule_before rules) request) in
      elim (Option-cases found) [
        | inl miss ↦ inr (
          λ rule m. find_first-sort-none rule_before (applies request) rules rule miss m,
          value ∙ ap (decision_of request) miss,
        )
        | inr (rule, hit) ↦
            let (m, t, best) =
              find_first-sort rule_before rule_before-IsOrder (applies request) rules hit in
            inl (rule, (m, t, best, value ∙ ap (decision_of request) hit))
      ]

  validate_all-In :
      (rules : List Rule) (rule : Rule)
      → validate_all net rules ≡ ok tt
      → In rule rules
      → validate net rule ≡ ok tt
  unfolding validate_all
  validate_all-In [] rule h m = elim m [ ]
  validate_all-In (r ∷ rules) rule h (inl e) = elim (Outcome-cases (validate net r)) [
    | inl (u, valid) ↦ rw e valid
    | inr (error, invalid) ↦ ground (arith, invalid)
  ]
  validate_all-In (r ∷ rules) rule h (inr m) =
      validate_all-In rules rule (ground (arith, Outcome-cases (validate net r))) m

  validate_all-of :
      (rules : List Rule)
      → ((rule : Rule) → In rule rules → validate net rule ≡ ok tt)
      → validate_all net rules ≡ ok tt
  unfolding validate_all
  validate_all-of [] h = refl
  validate_all-of (r ∷ rules) h =
      rw (h r (inl refl)) (validate_all-of rules (λ rule m. h rule (inr m)))

  pub new_engine-of :
      (rules : List Rule)
      → ((rule : Rule) → In rule rules → validate net rule ≡ ok tt)
      → new_engine net rules ≡ ok (record { rules = sort rule_before rules })
  unfolding new_engine
  new_engine-of rules h = rw (validate_all-of rules h) refl

  pub best_of_sorted :
      (rules : List Rule) (request : Request) (d : Decision)
      → IsBestDecision (sort rule_before rules) request d
      → IsBestDecision rules request d
  best_of_sorted rules request d (inl (rule, (m, t, best, e))) = inl (
    rule,
    (
      In-sort rule_before rule rules m,
      t,
      λ other mo to. best other (In-sort_of rule_before other rules mo) to,
      e,
    ),
  )
  best_of_sorted rules request d (inr (none_applies, e)) =
      inr (λ rule m. none_applies rule (In-sort_of rule_before rule rules m), e)

  -- Rules with different IDs build the same engine in whatever order they come, such as the order
  -- in which a map is ranged over: where one order is accepted, every other is, with that engine.
  pub new_engine_unique :
      (rules others : List Rule) (e : Engine)
      → Permᴰ rules others
      → ((a b : Rule) → In a rules → In b rules → a.id ≡ b.id → a ≡ b)
      → new_engine net rules ≡ ok e
      → new_engine net others ≡ ok e
  unfolding new_engine
  new_engine_unique rules others e p distinct h =
      let same =
        sort_unique rule_before rule_before-IsOrder p
          (λ a b ma mb u v. distinct a b ma mb (ranked_tie a.priority a.id b.priority b.id u v)) in
      let valid : validate_all net rules ≡ ok tt = ground arith in
      let valid' =
        validate_all-of others
          (λ r m. validate_all-In rules r valid (In-perm rule_before rule_before-IsOrder r p m)) in
      rw (valid', ← same) (sym (ap ok (new_engine-rules rules e h)))
