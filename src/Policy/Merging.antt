-- ===== src/Policy/Merging.antt =====
-- MergeRules of internal/policy/bundle.go: the last rule of each ID wins.
use anix_ops_sd_wan.Base.{
  Text, ◌==◌, eq_iff, ◌≡◌, refl, sym, ap, ◌∙◌, ◌↔◌, Option, none, some, List, [], ◌∷◌, ◌++◌, arith,
  In, if◌then◌else◌, ok, >>=-succeeded,
}
use anix_ops_sd_wan.Base.Sorting.{sort, IsSorted, sort-IsSorted, In-sort, In-sort_of}
use anix_ops_sd_wan.Base.Table.{
  Table, lookup, put, values, lookup-put, lookup-In, IsMap, put-IsMap, In-values,
}
use anix_ops_sd_wan.Net.{Net}
use anix_ops_sd_wan.Policy.{Rule, rule_before}
use anix_ops_sd_wan.Policy.Bundle.{merge_into, merge_rules}
use anix_ops_sd_wan.Policy.Routing.{rule_before-IsOrder}

abbrev or_else : Option Rule → Option Rule → Option Rule
or_else (some r) o = some r
or_else none o = o

-- The last rule of the list with this ID.
abbrev pub last_with : Text → List Rule → Option Rule
last_with id [] = none
last_with id (rule ∷ rules) =
    or_else (last_with id rules) (if rule.id == id then some rule else none)

last_with-append :
    (id : Text) (xs ys : List Rule)
    → last_with id (xs ++ ys) ≡ or_else (last_with id ys) (last_with id xs)
last_with-append id [] ys = elim (last_with id ys) as (λ o. o ≡ or_else o none) [
  | none ↦ refl
  | some r ↦ refl
]
last_with-append id (x ∷ xs) ys = ground (arith, last_with-append id xs ys)

-- The rules that are each the last of its ID, sorted.
abbrev pub IsUnion : List Rule → List Rule → List Rule → Type 0
IsUnion base updates rules =
    ((rule : Rule) → In rule rules ↔ (last_with rule.id (base ++ updates) ≡ some rule))
    × IsSorted rule_before rules

-- A map from the ID of each rule in it to the rule.
record IsIndex (m : Table Rule) : Type 0 where
  keys : IsMap m
  own : (k : Text) (r : Rule) → lookup k m ≡ some r → r.id ≡ k

IsIndex-empty : IsIndex []
unfolding lookup
IsIndex-empty = record { keys = tt; own = λ k r h. cc }

put-IsIndex : (m : Table Rule) (r : Rule) → IsIndex m → IsIndex (put r.id r m)
put-IsIndex m r h = record {
  keys = put-IsMap r.id r m h.keys;
  own = λ k s e. ground (arith, lookup-put r.id k r m, eq_iff r.id k, h.own k s);
}

module _ (net : Net) where
  merge_into-IsIndex :
      (m : Table Rule) (rules : List Rule) (out : Table Rule)
      → IsIndex m
      → merge_into net m rules ≡ ok out
      → IsIndex out
  unfolding merge_into
  merge_into-IsIndex m [] out h e = subst_index (ground arith) h
    where
      subst_index : m ≡ out → IsIndex m → IsIndex out
      subst_index p i = rw p at i
  merge_into-IsIndex m (r ∷ rs) out h e =
      merge_into-IsIndex (put r.id r m) rs out (put-IsIndex m r h) (ground arith)

  lookup-merge_into :
      (k : Text) (m : Table Rule) (rules : List Rule) (out : Table Rule)
      → merge_into net m rules ≡ ok out
      → lookup k out ≡ or_else (last_with k rules) (lookup k m)
  unfolding merge_into
  lookup-merge_into k m [] out e = ground arith
  lookup-merge_into k m (r ∷ rs) out e =
      ground (arith, lookup-merge_into k (put r.id r m) rs out, lookup-put r.id k r m)

  module _ (base updates rules : List Rule) (merged : merge_rules net base updates ≡ ok rules) where
    table_of :
        (m : Table Rule) × IsIndex m
        × ((k : Text) → lookup k m ≡ last_with k (base ++ updates))
        × (rules ≡ sort rule_before (values m))
    unfolding merge_rules lookup
    table_of =
        let (first, rest, e) = >>=-succeeded (merge_into net [] base) _ merged in
        let (m, last, f) = >>=-succeeded (merge_into net first updates) _ rest in
        (
          m,
          merge_into-IsIndex first updates m (merge_into-IsIndex [] base first IsIndex-empty e) f,
          (λ k. go k first m e f),
          ground arith,
        )
      where
        go :
            (k : Text) (first m : Table Rule)
            → merge_into net [] base ≡ ok first
            → merge_into net first updates ≡ ok m
            → lookup k m ≡ last_with k (base ++ updates)
        go k first m e f = ground (
          arith,
          lookup-merge_into k first updates m f,
          lookup-merge_into k [] base first e,
          last_with-append k base updates,
        )

    -- A merge that succeeds returns, for each ID, exactly the last rule with that ID in the base
    -- followed by the updates, so that an update replaces the base rule of its ID; and it returns
    -- them sorted by priority and ID.
    pub merge_rules-IsUnion : IsUnion base updates rules
    merge_rules-IsUnion =
        let (m, index, at, sorted) = table_of in
        rw sorted (
          (λ rule. (forward m index at rule, backward m at rule)),
          sort-IsSorted rule_before rule_before-IsOrder (values m),
        )
      where
        forward :
            (m : Table Rule)
            → IsIndex m
            → ((k : Text) → lookup k m ≡ last_with k (base ++ updates))
            → (rule : Rule) → In rule (sort rule_before (values m))
            → last_with rule.id (base ++ updates) ≡ some rule
        forward m index at rule i =
            let (k, e) = In-values m rule index.keys (In-sort rule_before rule (values m) i) in
            sym (at rule.id) ∙ ap (λ j. lookup j m) (index.own k rule e) ∙ e

        backward :
            (m : Table Rule)
            → ((k : Text) → lookup k m ≡ last_with k (base ++ updates))
            → (rule : Rule) → last_with rule.id (base ++ updates) ≡ some rule
            → In rule (sort rule_before (values m))
        backward m at rule e =
            In-sort_of rule_before rule (values m) (lookup-In rule.id m rule (at rule.id ∙ e))
