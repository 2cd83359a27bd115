-- ===== src/Contract/Profiles.antt =====
-- What a profile that passes Validate (internal/controlcontract/profile.go) promises.
use anix_ops_sd_wan.Base.{
  Text, str, ◌==◌, eq_iff, is_blank, trim_space, false, ◌&&◌, ◌≡◌, ◌≢◌, List, [], ◌∷◌, arith,
  Bool-cases, Outcome, ok, Outcome-cases, >>-succeeded, reject, inl, inr,
}
use anix_ops_sd_wan.Base.Sorting.{All, map-All}
use anix_ops_sd_wan.Net.{Net}
use anix_ops_sd_wan.Contract.{
  RouteSelector, ServiceChain, RoutePolicy, PopProfile, ProfileError, forbidden, missing, is_seen,
  is_empty, validate_identifier, check_distinct, check_hop, validate_hop_list, validate_chain,
}
use anix_ops_sd_wan.Contract.Checks.{is_absent, validate_selector, validate_route, validate_pop}

-- No two elements have the same name.
abbrev pub IsDistinct : {A : Type 0} → (A → Text) → List A → Type 0
IsDistinct name [] = Unit {0}
IsDistinct name (x ∷ xs) = All (λ y. name x ≢ name y) xs × IsDistinct name xs

module _ {A : Type 0} (check : A → Outcome ProfileError Text) (what : Text) (name : A → Text)
    (named : (x : A) (k : Text) → check x ≡ ok k → k ≡ name x) where
  -- Each element passes, under a name that has not been seen.
  abbrev IsFresh : List Text → A → Type 0
  IsFresh seen x = (check x ≡ ok (name x)) × (is_seen (name x) seen ≡ false)

  IsFresh-rest :
      (seen : List Text) (k : Text) (xs : List A)
      → All (IsFresh (k ∷ seen)) xs
      → All (IsFresh seen) xs × All (λ y. k ≢ name y) xs
  unfolding is_seen
  IsFresh-rest seen k [] h = (tt, tt)
  IsFresh-rest seen k (x ∷ xs) h =
      let (passes, seen_not) = h.0 in
      let (fresh, apart) = IsFresh-rest seen k xs h.1 in
      (
        ((passes, ground arith), fresh),
        (λ e. absurd (ground (arith, e, (eq_iff k (name x)).1 e)), apart),
      )

  pub check_distinct-IsDistinct :
      (seen : List Text) (xs : List A)
      → check_distinct check what seen xs ≡ ok tt
      → All (IsFresh seen) xs × IsDistinct name xs
  unfolding check_distinct
  check_distinct-IsDistinct seen [] h = (tt, tt)
  check_distinct-IsDistinct seen (x ∷ xs) h = elim (Outcome-cases (check x)) [
    | inr (e, fails) ↦ absurd (ground (arith, h, fails))
    | inl (k, passes) ↦ elim (Bool-cases (is_seen k seen)) [
      | inl old ↦ absurd (ground (arith, h, passes, old))
      | inr new ↦
          let same : k ≡ name x = named x k passes in
          let rest = check_distinct-IsDistinct (k ∷ seen) xs (ground (arith, h, passes, new)) in
          let (fresh, apart) = IsFresh-rest seen k xs rest.0 in
          ((rw (← same) (passes, new), fresh), (rw (← same) apart, rest.1))
    ]
  ]

-- A route that leads through a chain of named hops, each once, and never around it.
pub record IsChained (r : RoutePolicy) : Type 0 where
  pub named : is_blank r.id ≡ false
  pub no_way_around : r.direct_fallback ≡ false
  pub some_hop : r.chain.hops ≢ []
  pub hops_named : All (λ hop. is_blank hop ≡ false) r.chain.hops
  pub hops_distinct : IsDistinct trim_space r.chain.hops
  pub selects :
      (is_blank r.selector.source_cidr
        && is_blank r.selector.destination_cidr
        && is_blank r.selector.domain_suffix
        && is_blank r.selector.traffic_class
        && r.selector.protocol == []
        && is_absent r.selector.ports)
      ≡ false

check_hop-trim : (field hop k : Text) → check_hop field hop ≡ ok k → k ≡ trim_space hop
unfolding check_hop validate_identifier
check_hop-trim field hop k h = ground arith

check_hop-named : (field hop k : Text) → check_hop field hop ≡ ok k → is_blank hop ≡ false
unfolding check_hop validate_identifier
check_hop-named field hop k h = ground arith

hops_sound :
    (field : Text) (hops : List Text)
    → validate_hop_list field hops ≡ ok tt
    → All (λ hop. is_blank hop ≡ false) hops × IsDistinct trim_space hops
unfolding validate_hop_list
hops_sound field hops h =
    let (fresh, apart) =
      check_distinct-IsDistinct (check_hop field) field trim_space (check_hop-trim field) [] hops
        h in
    (
      map-All _ (λ hop. is_blank hop ≡ false) hops
          (λ x f. check_hop-named field x (trim_space x) f.0) fresh,
      apart,
    )

module _ (net : Net) where
  validate_route-trim :
      (r : RoutePolicy) (k : Text) → validate_route net r ≡ ok k → k ≡ trim_space r.id
  unfolding validate_route
  validate_route-trim r k h = ground arith

  validate_route-parts :
      (r : RoutePolicy) (k : Text)
      → validate_route net r ≡ ok k
      → (is_blank r.id ≡ false)
        × (r.direct_fallback ≡ false)
        × (validate_selector net r.selector ≡ ok tt)
        × (validate_chain r.chain ≡ ok tt)
  unfolding validate_route validate_identifier
  validate_route-parts r k h =
      let (id, h₁) = >>-succeeded (validate_identifier (str "route id") r.id) _ h in
      let (direct, h₂) =
        >>-succeeded (reject r.direct_fallback (forbidden (str "direct fallback"))) _ h₁ in
      let (selector, h₃) = >>-succeeded (validate_selector net r.selector) _ h₂ in
      let (chain, h₄) = >>-succeeded (validate_chain r.chain) _ h₃ in
      (ground arith, ground arith, selector, chain)

  selector-match :
      (s : RouteSelector)
      → validate_selector net s ≡ ok tt
      → (is_blank s.source_cidr
          && is_blank s.destination_cidr
          && is_blank s.domain_suffix
          && is_blank s.traffic_class
          && s.protocol == []
          && is_absent s.ports)
        ≡ false
  unfolding validate_selector
  selector-match s h = ground arith

  chain_hops :
      (c : ServiceChain)
      → validate_chain c ≡ ok tt
      → (is_empty c.hops ≡ false) × (validate_hop_list (str "service chain hop") c.hops ≡ ok tt)
  unfolding validate_chain
  chain_hops c h =
      let (id, h₁) = >>-succeeded (validate_identifier (str "service chain id") c.id) _ h in
      let (any, h₂) = >>-succeeded (reject (is_empty c.hops) (missing (str "hop"))) _ h₁ in
      let (hops, h₃) = >>-succeeded (validate_hop_list (str "service chain hop") c.hops) _ h₂ in
      (ground arith, hops)

  route-IsChained : (r : RoutePolicy) (k : Text) → validate_route net r ≡ ok k → IsChained r
  route-IsChained r k h =
      let (named, direct, selector, chain) = validate_route-parts r k h in
      let (any, hops) = chain_hops r.chain chain in
      let (names, apart) = hops_sound (str "service chain hop") r.chain.hops hops in
      record {
        named = named;
        no_way_around = direct;
        some_hop = λ e. absurd (ground (arith, any, e));
        hops_named = names;
        hops_distinct = apart;
        selects = selector-match r.selector selector;
      }

  -- A profile of a point of presence that passes validation has routes, with IDs that differ
  -- beyond their spaces; each has something to match, forbids the direct fallback, and leads
  -- through at least one hop, the hops named and different beyond their spaces.
  pub validate_pop-IsChained :
      (p : PopProfile)
      → validate_pop net p ≡ ok tt
      → (p.routes ≢ []) × All IsChained p.routes × IsDistinct (λ r. trim_space r.id) p.routes
  unfolding validate_pop
  validate_pop-IsChained p h =
      let checked : check_distinct (validate_route net) (str "POP route id") [] p.routes ≡ ok tt =
        ground (arith, h) in
      let (fresh, apart) =
        check_distinct-IsDistinct (validate_route net) (str "POP route id") (λ r. trim_space r.id)
          validate_route-trim [] p.routes checked in
      (
        (λ e. absurd (ground (arith, h, e))),
        map-All _ IsChained p.routes (λ r f. route-IsChained r (trim_space r.id) f.0) fresh,
        apart,
      )
