-- ===== src/Domain/Selection.antt =====
-- selectConfig, which internal/node/service.go and internal/agent/sync.go each define with the same
-- body: the configuration that a node or an agent takes from those of its tenant.
use anix_ops_sd_wan.Base.{
  ltb, Text, ◌==◌, less_text, less_text_irrefl, less_text_cotrans, Bool, true, false, ◌||◌,
  Bool-cases, Option, none, some, List, [], ◌∷◌, ◌++◌, In, ◌≡◌, ◌∙◌, ◌⊎◌, refl, arith, inl, inr,
  if◌then◌else◌,
}
use anix_ops_sd_wan.Base.Sorting.{All, All-of}
use anix_ops_sd_wan.Domain.{ConfigBundle}

-- candidate.CreatedAt.After(selected.CreatedAt) || candidate.Version > selected.Version
unfoldable pub supersedes : ConfigBundle → ConfigBundle → Bool
supersedes candidate selected =
    ltb selected.created_at candidate.created_at || less_text selected.version candidate.version

unfoldable pub next_choice : Option ConfigBundle → ConfigBundle → Option ConfigBundle
next_choice none candidate = some candidate
next_choice (some selected) candidate =
    some (if supersedes candidate selected then candidate else selected)

unfoldable pub choose : Text → Option ConfigBundle → List ConfigBundle → Option ConfigBundle
choose target_id selected [] = selected
choose target_id selected (candidate ∷ configs) =
    choose target_id
      (if candidate.target_id == target_id then next_choice selected candidate else selected)
      configs

unfoldable pub select_config : List ConfigBundle → Text → Option ConfigBundle
unfolding next_choice choose
select_config configs target_id = choose target_id none configs

-- The first bundle was created later, or has the greater version.
abbrev pub Ahead : ConfigBundle → ConfigBundle → Type 0
Ahead a b = (ltb b.created_at a.created_at ≡ true) ⊎ (less_text b.version a.version ≡ true)

-- Neither was it created later nor has it the greater version.
abbrev pub NotAhead : ConfigBundle → ConfigBundle → Type 0
NotAhead a b = (ltb b.created_at a.created_at ≡ false) × (less_text b.version a.version ≡ false)

-- The creation times and the versions do not order the two bundles in opposite ways.
abbrev pub Agree : ConfigBundle → ConfigBundle → Type 0
Agree a b = Ahead a b → NotAhead b a

supersedes-NotAhead : (a b : ConfigBundle) → supersedes a b ≡ false → NotAhead a b
unfolding supersedes
supersedes-NotAhead a b h = ground (arith, h)

supersedes-Agree : (a b : ConfigBundle) → Agree a b → supersedes a b ≡ true → supersedes b a ≡ false
unfolding supersedes
supersedes-Agree a b agree h = elim (Bool-cases (ltb b.created_at a.created_at)) [
  | inl later ↦ let (k, l) = agree (inl later) in rw (k, l) refl
  | inr not_later ↦ let (k, l) = agree (inr (ground (arith, h, not_later))) in rw (k, l) refl
]

supersedes_irrefl : (a : ConfigBundle) → supersedes a a ≡ false
unfolding supersedes
supersedes_irrefl a = ground (arith, less_text_irrefl a.version)

-- What is not ahead of a bundle is not ahead of one that is not behind it.
supersedes_cotrans :
    (a b c : ConfigBundle)
    → supersedes a b ≡ false
    → supersedes b c ≡ false
    → supersedes a c ≡ false
unfolding supersedes
supersedes_cotrans a b c h k = ground (arith, less_text_cotrans a.version b.version c.version)

-- No bundle with the target stands in the list, or the one chosen is one of them, and none of them is
-- ahead of it.
abbrev pub IsNewest : Text → List ConfigBundle → Option ConfigBundle → Type 0
IsNewest target configs none = All (λ c. (c.target_id == target) ≡ false) configs
IsNewest target configs (some r) =
    In r configs
    × ((r.target_id == target) ≡ true)
    × All (λ c. (c.target_id == target) ≡ true → NotAhead c r) configs

module _ (target : Text) (P : ConfigBundle → Type 0)
    (agree : (a b : ConfigBundle)
      → P a
      → P b
      → supersedes a b ≡ true
      → supersedes b a ≡ false) where
  -- What the loop ends with where it has chosen `s` before.
  IsChoice : ConfigBundle → List ConfigBundle → ConfigBundle → Type 0
  IsChoice s configs r =
      In r (s ∷ configs)
      × P r
      × ((d : ConfigBundle) → supersedes d s ≡ false → supersedes d r ≡ false)
      × All (λ c. (c.target_id == target) ≡ true → NotAhead c r) configs

  In-skip :
      (r s c : ConfigBundle) (configs : List ConfigBundle)
      → In r (s ∷ configs)
      → In r (s ∷ c ∷ configs)
  In-skip r s c configs (inl e) = inl e
  In-skip r s c configs (inr m) = inr (inr m)

  choose-IsChoice :
      (s : ConfigBundle) (configs : List ConfigBundle)
      → P s
      → All (λ c. (c.target_id == target) ≡ true → P c) configs
      → (r : ConfigBundle) × (choose target (some s) configs ≡ some r) × IsChoice s configs r
  unfolding choose next_choice IsChoice
  choose-IsChoice s [] p h = (s, refl, (inl refl, p, λ d e. e, tt))
  choose-IsChoice s (c ∷ configs) p h = elim (Bool-cases (c.target_id == target)) [
    | inr other ↦
        let (r, e, choice) = choose-IsChoice s configs p h.1 in
        (
          r,
          rw other e,
          (In-skip r s c configs choice.0, choice.1, choice.2, (λ same. cc, choice.3)),
        )
    | inl same ↦ elim (Bool-cases (supersedes c s)) [
      | inl ahead ↦
          let (r, e, choice) = choose-IsChoice c configs (h.0 same) h.1 in
          (
            r,
            rw (same, ahead) e,
            (
              inr choice.0,
              choice.1,
              λ d behind.
                  choice.2 d (supersedes_cotrans d s c behind (agree c s (h.0 same) p ahead)),
              (λ t. supersedes-NotAhead c r (choice.2 c (supersedes_irrefl c)), choice.3),
            ),
          )
      | inr behind ↦
          let (r, e, choice) = choose-IsChoice s configs p h.1 in
          (
            r,
            rw (same, behind) e,
            (
              In-skip r s c configs choice.0,
              choice.1,
              choice.2,
              (λ t. supersedes-NotAhead c r (choice.2 c behind), choice.3),
            ),
          )
    ]
  ]

module _ (target : Text) where
  -- The bundles that the search is about.
  abbrev pub Targeted : List ConfigBundle → ConfigBundle → Type 0
  Targeted configs c = In c configs × ((c.target_id == target) ≡ true)

  IsNewest-skip :
      (c : ConfigBundle) (configs : List ConfigBundle) (o : Option ConfigBundle)
      → (c.target_id == target) ≡ false
      → IsNewest target configs o
      → IsNewest target (c ∷ configs) o
  IsNewest-skip c configs none other h = (other, h)
  IsNewest-skip c configs (some r) other h = (inr h.0, h.1, (λ same. cc, h.2))

  -- Where no two of the bundles with the target are ordered in opposite ways by their creation times
  -- and their versions, the one chosen has the target, stands in the list, and none of those with the
  -- target was created later or has a greater version; none is chosen exactly where none has the
  -- target.
  pub select_config-IsNewest :
      (configs : List ConfigBundle)
      → ((a b : ConfigBundle) → Targeted configs a → Targeted configs b → Agree a b)
      → IsNewest target configs (select_config configs target)
  unfolding select_config choose next_choice IsChoice
  select_config-IsNewest [] agree = tt
  select_config-IsNewest (c ∷ configs) agree = elim (Bool-cases (c.target_id == target)) [
    | inr other ↦
        let rest =
          select_config-IsNewest configs
            (λ a b ta tb. agree a b (inr ta.0, ta.1) (inr tb.0, tb.1)) in
        rw other (IsNewest-skip c configs (select_config configs target) other rest)
    | inl same ↦
        let P = Targeted (c ∷ configs) in
        let all =
          All-of (λ d. (d.target_id == target) ≡ true → P d) configs (λ d m t. (inr m, t)) in
        let (r, e, choice) =
          choose-IsChoice target P (λ a b p q. supersedes-Agree a b (agree a b p q)) c configs
            (inl refl, same) all in
        rw (same, e)
          (
            choice.0,
            choice.1.1,
            (λ t. supersedes-NotAhead c r (choice.2 c (supersedes_irrefl c)), choice.3),
          )
  ]

-- No bundle of the list has the target.
abbrev pub Untargeted : Text → List ConfigBundle → Type 0
Untargeted target configs = All (λ c. (c.target_id == target) ≡ false) configs

choose-skip :
    (target : Text) (o : Option ConfigBundle) (first rest : List ConfigBundle)
    → Untargeted target first
    → choose target o (first ++ rest) ≡ choose target o rest
unfolding choose
choose-skip target o [] rest others = refl
choose-skip target o (c ∷ first) rest others =
    rw (others.0, choose) (choose-skip target o first rest others.1)

choose-none :
    (target : Text) (o : Option ConfigBundle) (configs : List ConfigBundle)
    → Untargeted target configs
    → choose target o configs ≡ o
unfolding choose
choose-none target o [] others = refl
choose-none target o (c ∷ configs) others = rw others.0 (choose-none target o configs others.1)

Ahead-supersedes : (a b : ConfigBundle) → Ahead a b → supersedes a b ≡ true
unfolding supersedes
Ahead-supersedes a b (inl later) = rw later refl
Ahead-supersedes a b (inr greater) = ground (arith, greater)

-- Of two bundles with the target, the second is chosen where it is ahead of the first.
choose-second :
    (target : Text) (a b : ConfigBundle) (first between last : List ConfigBundle)
    → (a.target_id == target) ≡ true
    → (b.target_id == target) ≡ true
    → Untargeted target first
    → Untargeted target between
    → Untargeted target last
    → Ahead b a
    → select_config (first ++ (a ∷ (between ++ (b ∷ last)))) target ≡ some b
unfolding select_config choose next_choice
choose-second target a b first between last ta tb u v w ahead =
    let newer = Ahead-supersedes b a ahead in
    let end : choose target (some a) (b ∷ last) ≡ some b =
      rw (tb, newer) (choose-none target (some b) last w) in
    choose-skip target none first (a ∷ (between ++ (b ∷ last))) u
    ∙ rw (ta, choose) (choose-skip target (some a) between (b ∷ last) v ∙ end)

-- In a list in which two bundles have the target, one created later and the other with the greater
-- version, the one that stands behind is chosen, whichever it is and whatever other bundles stand
-- around them: the order of the list decides.
pub select_config-by_order :
    (target : Text) (a b : ConfigBundle) (first between last : List ConfigBundle)
    → (a.target_id == target) ≡ true
    → (b.target_id == target) ≡ true
    → Untargeted target first
    → Untargeted target between
    → Untargeted target last
    → ltb a.created_at b.created_at ≡ true
    → less_text b.version a.version ≡ true
    → (select_config (first ++ (a ∷ (between ++ (b ∷ last)))) target ≡ some b)
      × (select_config (first ++ (b ∷ (between ++ (a ∷ last)))) target ≡ some a)
select_config-by_order target a b first between last ta tb u v w later greater = (
  choose-second target a b first between last ta tb u v w (inl later),
  choose-second target b a first between last tb ta u v w (inr greater),
)
