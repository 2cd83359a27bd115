-- ===== src/Edge/Ranking.antt =====
-- HealthTracker and Scheduler of internal/edge/edge.go: which nodes are ranked, and in what order.
use mathlib.Core.List.{Perm}
use anix_ops_sd_wan.Base.{
  ℕ, ◌+◌, ◌≤◌, pos_part, neg_part, ◌==◌, eq_iff, less_text_asym, less_text_cotrans, Bool, true,
  false, ◌≡◌, ◌≢◌, refl, sym, ap, ◌∙◌, subst, ◌↔◌, ◌⊎◌, inl, inr, some, List, [], ◌∷◌, map, arith,
  Bool-cases, In, In-map, In-of_map, keep, In-keep, In-keep_of, Outcome-cases, ok, >>=-succeeded,
}
use anix_ops_sd_wan.Base.Sorting.{
  All, All-In, sort, sort-perm, IsOrder, IsSorted, sort-IsSorted, In-sort, In-sort_of,
}
use anix_ops_sd_wan.Base.Table.{
  lookup, put, values, lookup-In, In-values, IsMap, put-IsMap, Entries, put-Entries, lookup-Entries,
  lookup-put, lookup-put_self,
}
use anix_ops_sd_wan.Edge.{
  Candidate, Heartbeat, HealthTracker, observe, candidate_of, candidates, candidate_before,
  id_before, healthy_candidates, rank, rank_healthy, first_ranked, pick,
}

candidate_before_asym :
    (a b : Candidate) → candidate_before a b ≡ true → candidate_before b a ≡ false
candidate_before_asym a b h = ground (arith, less_text_asym a.id b.id)

candidate_before_cotrans :
    (a b c : Candidate)
    → candidate_before b a ≡ false
    → candidate_before c b ≡ false
    → candidate_before c a ≡ false
candidate_before_cotrans a b c h k = ground (arith, less_text_cotrans a.id b.id c.id)

pub candidate_before-IsOrder : IsOrder candidate_before
candidate_before-IsOrder = record {
  asym = candidate_before_asym;
  cotrans = candidate_before_cotrans;
}

abbrev pub is_healthy : Candidate → Bool
is_healthy c = c.healthy

-- Every candidate has an ID.
abbrev pub AllNamed : List Candidate → Type 0
AllNamed = All (λ c. (c.id == []) ≡ false)

healthy_candidates-keep :
    (cs : List Candidate) → AllNamed cs → healthy_candidates cs ≡ ok (keep is_healthy cs)
unfolding healthy_candidates keep
healthy_candidates-keep [] a = refl
healthy_candidates-keep (c ∷ cs) a = ground (arith, healthy_candidates-keep cs a.1)

healthy_candidates-ok :
    (cs healthy : List Candidate) → healthy_candidates cs ≡ ok healthy → AllNamed cs
unfolding healthy_candidates
healthy_candidates-ok [] healthy h = tt
healthy_candidates-ok (c ∷ cs) healthy h = elim (Outcome-cases (healthy_candidates cs)) [
  | inl (rest, e) ↦ (ground (arith, e), healthy_candidates-ok cs rest e)
  | inr (error, e) ↦ absurd (ground (arith, e))
]

-- The healthy candidates, each as often as it was given, sorted by load and then by ID.
abbrev pub IsRanking : List Candidate → List Candidate → Type 0
IsRanking cs ranked = Perm ranked (keep is_healthy cs) × IsSorted candidate_before ranked

rank_healthy-sort :
    (cs : List Candidate) → cs ≢ [] → rank_healthy cs ≡ ok (sort candidate_before cs)
unfolding rank_healthy
rank_healthy-sort [] h = absurd (h refl)
rank_healthy-sort (c ∷ cs) h = refl

rank_healthy-ok :
    (cs ranked : List Candidate)
    → rank_healthy cs ≡ ok ranked
    → (cs ≢ []) × (ranked ≡ sort candidate_before cs)
unfolding rank_healthy
rank_healthy-ok [] ranked h = cc
rank_healthy-ok (c ∷ cs) ranked h = ((λ e. cc), ground arith)

rank-ok :
    (cs ranked : List Candidate)
    → rank cs ≡ ok ranked
    → AllNamed cs
      × (keep is_healthy cs ≢ [])
      × (ranked ≡ sort candidate_before (keep is_healthy cs))
unfolding rank
rank-ok cs ranked h =
    let (healthy, r, e) = >>=-succeeded (healthy_candidates cs) rank_healthy h in
    let named = healthy_candidates-ok cs healthy e in
    let same : healthy ≡ keep is_healthy cs = ground (arith, e, healthy_candidates-keep cs named) in
    let (some_left, sorted) = rank_healthy-ok healthy ranked r in
    (named, rw (← same) some_left, rw (← same) sorted)

-- Rank succeeds exactly where every candidate has an ID and some candidate is healthy, and what it
-- returns then is the healthy candidates, each as often as it was given, sorted by load and ID.
pub rank_ranks :
    (cs : List Candidate)
    → (((ranked : List Candidate) × (rank cs ≡ ok ranked))
        ↔ (AllNamed cs × (keep is_healthy cs ≢ [])))
      × ((ranked : List Candidate) → rank cs ≡ ok ranked → IsRanking cs ranked)
unfolding rank
rank_ranks cs = (
  (
    (λ (ranked, h). let (n, k, e) = rank-ok cs ranked h in (n, k)),
    (λ (named, left). (
      sort candidate_before (keep is_healthy cs),
      rw (healthy_candidates-keep cs named) (rank_healthy-sort (keep is_healthy cs) left),
    )),
  ),
  λ ranked h.
      let (n, k, e) = rank-ok cs ranked h in
      rw e (
        sort-perm candidate_before (keep is_healthy cs),
        sort-IsSorted candidate_before candidate_before-IsOrder (keep is_healthy cs),
      ),
)

head_sorted :
    (c : Candidate) (cs xs : List Candidate)
    → c ∷ cs ≡ sort candidate_before xs
    → In c xs × ((d : Candidate) → In d xs → candidate_before d c ≡ false)
head_sorted c cs xs e =
    let sorted : IsSorted candidate_before (c ∷ cs) =
      subst (IsSorted candidate_before) (sym e)
        (sort-IsSorted candidate_before candidate_before-IsOrder xs) in
    let inside : (d : Candidate) → In d xs → In d (c ∷ cs) =
      λ d m. subst (In d) (sym e) (In-sort_of candidate_before d xs m) in
    (In-sort candidate_before c xs (rw (← e) (inl refl)), λ d m. first d (inside d m) sorted)
  where
    first :
        (d : Candidate)
        → In d (c ∷ cs)
        → IsSorted candidate_before (c ∷ cs)
        → candidate_before d c ≡ false
    first d (inl same) s = rw same (order_irrefl c)
      where
        order_irrefl : (x : Candidate) → candidate_before x x ≡ false
        order_irrefl x = ground (arith, less_text_asym x.id x.id)
    first d (inr m) s = All-In (λ x. candidate_before x c ≡ false) cs d s.0 m

best_of_ranking :
    (cs : List Candidate) (c : Candidate) (ranked : List Candidate)
    → ranked ≡ sort candidate_before (keep is_healthy cs)
    → first_ranked ranked ≡ ok c
    → In c (keep is_healthy cs)
      × ((d : Candidate) → In d (keep is_healthy cs) → candidate_before d c ≡ false)
unfolding first_ranked
best_of_ranking cs c [] e h = cc
best_of_ranking cs c (b ∷ rest) e h =
    let same : b ≡ c = ground arith in rw (← same) (head_sorted b rest (keep is_healthy cs) e)

-- Pick returns a healthy candidate among those given, and no healthy one that was given has a
-- smaller load, or the same load and a smaller ID.
pub pick_best :
    (cs : List Candidate) (c : Candidate)
    → pick cs ≡ ok c
    → In c cs
      × (c.healthy ≡ true)
      × ((d : Candidate) → In d cs → d.healthy ≡ true → candidate_before d c ≡ false)
unfolding pick
pick_best cs c h =
    let (ranked, f, e) = >>=-succeeded (rank cs) first_ranked h in
    let (m, best) = best_of_ranking cs c ranked (rank-ok cs ranked e).2 f in
    let (inside, healthy) = In-keep is_healthy cs c m in
    (inside, healthy, λ d i t. best d (In-keep_of is_healthy cs d i t))

-- A tracker of which every node stands under its own ID.
pub record IsTracker (t : HealthTracker) : Type 0 where
  pub keys : IsMap t.nodes
  pub own : Entries (λ k h. h.id ≡ k) t.nodes

pub observe-IsTracker :
    (t t' : HealthTracker) (h : Heartbeat) → IsTracker t → observe t h ≡ ok t' → IsTracker t'
unfolding observe
observe-IsTracker t t' h v e =
    let same : record t { nodes = put h.id h t.nodes } ≡ t' = ground arith in
    subst IsTracker same (record {
      keys = put-IsMap h.id h t.nodes v.keys;
      own = put-Entries (λ k b. b.id ≡ k) h.id h t.nodes refl v.own;
    })

-- The candidates are what the tracker says of the last heartbeat of each node.
candidates_iff :
    (t : HealthTracker) (now : ℕ) (c : Candidate)
    → IsTracker t
    → In c (candidates t now)
      ↔ ((h : Heartbeat) × (lookup h.id t.nodes ≡ some h) × (c ≡ candidate_of t now h))
unfolding candidates
candidates_iff t now c v = (
  (λ m.
      let (h, i, e) =
        In-of_map (candidate_of t now) (values t.nodes) c
          (In-sort id_before c (map (candidate_of t now) (values t.nodes)) m) in
      let (k, found) = In-values t.nodes h v.keys i in
      let own = lookup-Entries (λ k b. b.id ≡ k) k t.nodes v.own found in
      (h, ap (λ j. lookup j t.nodes) own ∙ found, e)),
  (λ (h, found, e). In-sort_of id_before c (map (candidate_of t now) (values t.nodes)) (
      subst (λ x. In x (map (candidate_of t now) (values t.nodes))) (sym e)
        (In-map (candidate_of t now) (values t.nodes) h (lookup-In h.id t.nodes h found)))),
)

module _ (t : HealthTracker) (h : Heartbeat) (now : ℕ) (c : Candidate) (v : IsTracker t) where
  abbrev seen : HealthTracker
  seen = record t { nodes = put h.id h t.nodes }

  seen-IsTracker : IsTracker seen
  seen-IsTracker = record {
    keys = put-IsMap h.id h t.nodes v.keys;
    own = put-Entries (λ k b. b.id ≡ k) h.id h t.nodes refl v.own;
  }

  listed_seen :
      In c (candidates seen now)
      → (c ≡ candidate_of t now h) ⊎ ((c.id ≢ h.id) × In c (candidates t now))
  unfolding candidate_of
  listed_seen m =
      let (b, found, e) = (candidates_iff seen now c seen-IsTracker).0 m in
      elim (Bool-cases (h.id == b.id)) [
        | inl same ↦
            let value : h ≡ b = ground (arith, lookup-put h.id b.id h t.nodes, same, found) in
            inl (rw value e)
        | inr other ↦
            let old : lookup b.id t.nodes ≡ some b =
              ground (arith, lookup-put h.id b.id h t.nodes, other, found) in
            inr (
              (λ x. ground (arith, ap (λ (y : Candidate). y.id) e, eq_iff h.id b.id, x, other)),
              (candidates_iff t now c v).1 (b, old, e),
            )
      ]

  seen_listed :
      (c ≡ candidate_of t now h) ⊎ ((c.id ≢ h.id) × In c (candidates t now))
      → In c (candidates seen now)
  unfolding candidate_of
  seen_listed (inl e) =
      (candidates_iff seen now c seen-IsTracker).1 (h, lookup-put_self h.id h t.nodes, e)
  seen_listed (inr (other, m)) =
      let (b, found, e) = (candidates_iff t now c v).0 m in
      let kept : lookup b.id (put h.id h t.nodes) ≡ some b = ground (
        arith,
        lookup-put h.id b.id h t.nodes,
        ap (λ (y : Candidate). y.id) e,
        eq_iff h.id b.id,
        other,
        found,
      ) in
      (candidates_iff seen now c seen-IsTracker).1 (b, kept, e)

-- After an accepted heartbeat its node is listed once more as that heartbeat says, healthy exactly
-- until the lifetime after the observation has passed, and every other node is listed as before.
pub candidates-observe :
    (t t' : HealthTracker) (h : Heartbeat) (now : ℕ) (c : Candidate)
    → IsTracker t
    → observe t h ≡ ok t'
    → ((In c (candidates t' now))
        ↔ ((c ≡ candidate_of t now h) ⊎ ((c.id ≢ h.id) × In c (candidates t now))))
      × (((candidate_of t now h).healthy ≡ true)
          ↔ (now + neg_part t.ttl ≤ h.observed + pos_part t.ttl))
unfolding observe candidate_of
candidates-observe t t' h now c v e =
    let same : record t { nodes = put h.id h t.nodes } ≡ t' = ground arith in
    (
      subst
          (λ u.
            In c (candidates u now)
            ↔ ((c ≡ candidate_of t now h) ⊎ ((c.id ≢ h.id) × In c (candidates t now))))
          same (listed_seen t h now c v, seen_listed t h now c v),
      ground arith,
    )
