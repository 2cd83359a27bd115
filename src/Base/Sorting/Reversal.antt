-- ===== src/Base/Sorting/Reversal.antt =====
-- Sorting by a reversed test, as sort.Slice is called with it.
use mathlib.Core.Path.{◌≡◌, refl, ap, ◌∙◌}
use mathlib.Core.Logic.{inl, inr}
use mathlib.Core.Bool.{Bool, true, false}
use mathlib.Core.List.{List, [], ◌∷◌, ◌++◌, reverse, reverse-cons}
use native.Mathlib.Omega.{arith}
use anix_ops_sd_wan.Base.Tests.{Bool-cases}
use anix_ops_sd_wan.Base.Sorting.{
  All, All-append, All-of, All-In, IsOrder, insert, sort, IsSorted, sort-IsSorted, In-sort,
}

-- Where no two elements tie, sorting by the reversed test turns the sorted list around.
module _ {A : Type 0} (less : A → A → Bool) where
  -- Of each two elements the test puts one first.
  abbrev pub IsTieless : List A → Type 0
  IsTieless [] = Unit {0}
  IsTieless (x ∷ xs) = All (λ y. less y x ≡ false → less x y ≡ true) xs × IsTieless xs

  unfoldable pub flipped : A → A → Bool
  flipped x y = less y x

module _ {A : Type 0} (less : A → A → Bool) (order : IsOrder less) where
  insert-end :
      (x y : A) (zs : List A)
      → less x y ≡ false
      → insert (flipped less) x (zs ++ (y ∷ [])) ≡ insert (flipped less) x zs ++ (y ∷ [])
  unfolding insert flipped
  insert-end x y [] h = rw h refl
  insert-end x y (z ∷ zs) h = ground (arith, insert-end x y zs h)

  insert-last :
      (x : A) (zs : List A)
      → All (λ z. less x z ≡ true) zs
      → insert (flipped less) x zs ≡ zs ++ (x ∷ [])
  unfolding insert flipped
  insert-last x [] h = refl
  insert-last x (z ∷ zs) h = ground (arith, h.0, insert-last x zs h.1)

  All-reverse : (P : A → Type 0) (xs : List A) → All P xs → All P (reverse xs)
  All-reverse P [] h = tt
  All-reverse P (x ∷ xs) h =
      rw (reverse-cons x xs) (All-append P (reverse xs) (x ∷ []) (All-reverse P xs h.1) (h.0, tt))

  -- What stands in front of the first of a sorted list stands in front of all of it.
  All-front :
      (x y : A) (ys : List A)
      → less x y ≡ true
      → All (λ z. less z y ≡ false) ys
      → All (λ z. less z x ≡ false → less x z ≡ true) ys
      → All (λ z. less x z ≡ true) ys
  All-front x y [] e s t = tt
  All-front x y (z ∷ ys) e s t = (
    elim (Bool-cases (less x z)) [
      | inl front ↦ front
      | inr behind ↦
          let no_front = order.cotrans y z x s.0 behind in absurd (ground (arith, no_front, e))
    ],
    All-front x y ys e s.1 t.1,
  )

  insert-reverse :
      (x : A) (ys : List A)
      → IsSorted less ys
      → All (λ y. less y x ≡ false → less x y ≡ true) ys
      → insert (flipped less) x (reverse ys) ≡ reverse (insert less x ys)
  unfolding insert
  insert-reverse x [] s t = refl
  insert-reverse x (y ∷ ys) s t = elim (Bool-cases (less y x)) [
    | inl before ↦
        let rest = insert-reverse x ys s.1 t.1 in
        let end = insert-end x y (reverse ys) (order.asym y x before) in
        rw (before, reverse-cons y ys, reverse-cons y (insert less x ys), end)
          (ap (λ l. l ++ (y ∷ [])) rest)
    | inr after ↦
        let all : All (λ z. less x z ≡ true) (y ∷ ys) =
          (t.0 after, All-front x y ys (t.0 after) s.0 t.1) in
        rw (after, reverse-cons x (y ∷ ys))
          (insert-last x (reverse (y ∷ ys)) (All-reverse (λ z. less x z ≡ true) (y ∷ ys) all))
  ]

  pub sort-reverse :
      (xs : List A) → IsTieless less xs → sort (flipped less) xs ≡ reverse (sort less xs)
  unfolding sort
  sort-reverse [] t = refl
  sort-reverse (x ∷ xs) t =
      ap (insert (flipped less) x) (sort-reverse xs t.1)
      ∙ insert-reverse x (sort less xs) (sort-IsSorted less order xs) (
          All-of (λ y. less y x ≡ false → less x y ≡ true) (sort less xs)
            (λ y m.
              All-In (λ y. less y x ≡ false → less x y ≡ true) xs y t.0 (In-sort less y xs m)))
