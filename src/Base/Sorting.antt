-- ===== src/Base/Sorting.antt =====
-- sort.SliceStable and sort.Slice by a test `less`, as a stable insertion sort. Where the test
-- orders the elements strictly (as it does wherever the program sorts the values of a map), the
-- sorted arrangement is the only one, so the two functions and every sorting algorithm agree.
pub mod Reversal
use Prim.Native.Nat.{suc}
use mathlib.Core.Path.{◌≡◌, refl, ap, sym, ◌∙◌}
use mathlib.Core.Logic.{inl, inr}
use mathlib.Core.Bool.{Bool, true, false}
use mathlib.Core.Option.{none, some}
use mathlib.Core.List.{List, [], ◌∷◌, ◌++◌, reverse, reverse-cons, Perm, Permᴰ}
use mathlib.Core.List.Perm
use native.Mathlib.Omega.{arith}
use anix_ops_sd_wan.Base.Tests.{if◌then◌else◌, Bool-cases}
use anix_ops_sd_wan.Base.Lists.{length, In, find_first, find_first-eq-some, find_first-eq-none}

-- The elements of a list, each with what stands behind it.
module _ {A : Type 0} where
  abbrev pub All : (A → Type 0) → List A → Type 0
  All P [] = Unit {0}
  All P (x ∷ xs) = P x × All P xs

  pub All-append : (P : A → Type 0) (xs ys : List A) → All P xs → All P ys → All P (xs ++ ys)
  All-append P [] ys h k = k
  All-append P (x ∷ xs) ys h k = (h.0, All-append P xs ys h.1 k)

  pub All-of : (P : A → Type 0) (xs : List A) → ((x : A) → In x xs → P x) → All P xs
  All-of P [] f = tt
  All-of P (x ∷ xs) f = (f x (inl refl), All-of P xs (λ y m. f y (inr m)))

  pub map-All : (P Q : A → Type 0) (xs : List A) → ((x : A) → P x → Q x) → All P xs → All Q xs
  map-All P Q [] f h = tt
  map-All P Q (x ∷ xs) f h = (f x h.0, map-All P Q xs f h.1)

  pub All-In : (P : A → Type 0) (xs : List A) (x : A) → All P xs → In x xs → P x
  All-In P [] x h m = elim m [ ]
  All-In P (y ∷ xs) x h (inl e) = subst_back e h.0
    where
      subst_back : x ≡ y → P y → P x
      subst_back e p = rw e p
  All-In P (y ∷ xs) x h (inr m) = All-In P xs x h.1 m

-- `less` is a strict weak order: it is asymmetric, and so is each gap in it transitive.
pub record IsOrder {A : Type 0} (less : A → A → Bool) : Type 0 where
  pub asym : (x y : A) → less x y ≡ true → less y x ≡ false
  pub cotrans : (x y z : A) → less y x ≡ false → less z y ≡ false → less z x ≡ false

module _ {A : Type 0} (less : A → A → Bool) where
  unfoldable pub insert : A → List A → List A
  insert x [] = x ∷ []
  insert x (y ∷ ys) = if less y x then y ∷ insert x ys else x ∷ y ∷ ys

  unfoldable pub sort : List A → List A
  unfolding insert
  sort [] = []
  sort (x ∷ xs) = insert x (sort xs)

  -- No element stands in front of a smaller one.
  abbrev pub IsSorted : List A → Type 0
  IsSorted [] = Unit {0}
  IsSorted (x ∷ xs) = All (λ y. less y x ≡ false) xs × IsSorted xs

  length-insert : (x : A) (xs : List A) → length (insert x xs) ≡ suc (length xs)
  unfolding insert
  length-insert x [] = refl
  length-insert x (y ∷ ys) = elim (Bool-cases (less y x)) [
    | inl e ↦ rw e (ap suc (length-insert x ys))
    | inr e ↦ rw e refl
  ]

  pub length-sort : (xs : List A) → length (sort xs) ≡ length xs
  unfolding sort
  length-sort [] = refl
  length-sort (x ∷ xs) = length-insert x (sort xs) ∙ ap suc (length-sort xs)

  insert-perm : (x : A) (xs : List A) → Perm (insert x xs) (x ∷ xs)
  unfolding insert
  insert-perm x [] = Perm.refl (x ∷ [])
  insert-perm x (y ∷ ys) = elim (Bool-cases (less y x)) [
    | inl e ↦ rw e (Perm.trans (Perm.cons y (insert-perm x ys)) (Perm.swap x y ys))
    | inr e ↦ rw e (Perm.refl (x ∷ y ∷ ys))
  ]

  pub sort-perm : (xs : List A) → Perm (sort xs) xs
  unfolding sort
  sort-perm [] = Perm.refl []
  sort-perm (x ∷ xs) = Perm.trans (insert-perm x (sort xs)) (Perm.cons x (sort-perm xs))

  In-insert : (x y : A) (xs : List A) → In y (insert x xs) → In y (x ∷ xs)
  unfolding insert
  In-insert x y [] h = h
  In-insert x y (z ∷ xs) h = elim (Bool-cases (less z x)) [
    | inl e ↦ ground (arith, In-insert x y xs)
    | inr e ↦ ground arith
  ]

  In-insert_of : (x y : A) (xs : List A) → In y (x ∷ xs) → In y (insert x xs)
  unfolding insert
  In-insert_of x y [] h = h
  In-insert_of x y (z ∷ xs) h = ground (arith, In-insert_of x y xs)

  pub In-sort : (y : A) (xs : List A) → In y (sort xs) → In y xs
  unfolding sort
  In-sort y [] h = h
  In-sort y (x ∷ xs) h = ground (arith, In-insert x y (sort xs) h, In-sort y xs)

  pub In-sort_of : (y : A) (xs : List A) → In y xs → In y (sort xs)
  unfolding sort
  In-sort_of y [] h = h
  In-sort_of y (x ∷ xs) (inl e) = In-insert_of x y (sort xs) (inl e)
  In-sort_of y (x ∷ xs) (inr h) = In-insert_of x y (sort xs) (inr (In-sort_of y xs h))

  module _ (order : IsOrder less) where
    All-insert : (P : A → Type 0) (x : A) (xs : List A) → P x → All P xs → All P (insert x xs)
    unfolding insert
    All-insert P x [] p h = (p, tt)
    All-insert P x (y ∷ ys) p h = elim (Bool-cases (less y x)) [
      | inl e ↦ rw e (h.0, All-insert P x ys p h.1)
      | inr e ↦ rw e (p, h)
    ]

    All-above :
        (x y : A) (ys : List A)
        → less y x ≡ false
        → All (λ z. less z y ≡ false) ys
        → All (λ z. less z x ≡ false) ys
    All-above x y [] h a = tt
    All-above x y (z ∷ ys) h a = (order.cotrans x y z h a.0, All-above x y ys h a.1)

    insert-IsSorted : (x : A) (xs : List A) → IsSorted xs → IsSorted (insert x xs)
    unfolding insert
    insert-IsSorted x [] s = (tt, tt)
    insert-IsSorted x (y ∷ ys) s = elim (Bool-cases (less y x)) [
      | inl e ↦
          rw e (
            All-insert (λ z. less z y ≡ false) x ys (order.asym y x e) s.0,
            insert-IsSorted x ys s.1,
          )
      | inr e ↦ rw e ((e, All-above x y ys e s.0), s)
    ]

    pub sort-IsSorted : (xs : List A) → IsSorted (sort xs)
    unfolding sort
    sort-IsSorted [] = tt
    sort-IsSorted (x ∷ xs) = insert-IsSorted x (sort xs) (sort-IsSorted xs)

    less_irrefl : (x : A) → less x x ≡ false
    less_irrefl x = elim (Bool-cases (less x x)) [ inl e ↦ order.asym x x e | inr e ↦ e ]

    find_sorted :
        (p : A → Bool) (xs : List A) (x y : A)
        → IsSorted xs
        → find_first p xs ≡ some x
        → In y xs
        → p y ≡ true
        → less y x ≡ false
    unfolding find_first
    find_sorted p [] x y s f m t = elim m [ ]
    find_sorted p (z ∷ xs) x y s f (inl e) t = elim (Bool-cases (p z)) [
      | inl hit ↦ let same : z ≡ x = ground arith in rw (e, same) (less_irrefl x)
      | inr miss ↦ ground arith
    ]
    find_sorted p (z ∷ xs) x y s f (inr m) t = elim (Bool-cases (p z)) [
      | inl hit ↦
          let same : z ≡ x = ground arith in rw (← same) (All-In (λ w. less w z ≡ false) xs y s.0 m)
      | inr miss ↦ find_sorted p xs x y s.1 (ground arith) m t
    ]

    -- The first hit in the sorted list is a hit with no smaller one beside it.
    pub find_first-sort :
        (p : A → Bool) (xs : List A) {x : A}
        → find_first p (sort xs) ≡ some x
        → In x xs × (p x ≡ true) × ((y : A) → In y xs → p y ≡ true → less y x ≡ false)
    find_first-sort p xs {x} f =
        let (m, t) = find_first-eq-some p (sort xs) f in
        (
          In-sort x xs m,
          t,
          λ y my ty. find_sorted p (sort xs) x y (sort-IsSorted xs) f (In-sort_of y xs my) ty,
        )

  pub find_first-sort-none :
      (p : A → Bool) (xs : List A) (y : A) → find_first p (sort xs) ≡ none → In y xs → p y ≡ false
  find_first-sort-none p xs y f m = find_first-eq-none p (sort xs) y f (In-sort_of y xs m)

-- Where no two elements tie, the order of arrival does not show in the sorted list.
module _ {A : Type 0} (less : A → A → Bool) (order : IsOrder less) where
  -- Equal elements, or elements of which the test puts one first.
  abbrev pub Apart : A → A → Type 0
  Apart x y = less x y ≡ false → less y x ≡ false → x ≡ y

  insert_comm :
      (x y : A) (xs : List A)
      → Apart x y
      → insert less x (insert less y xs) ≡ insert less y (insert less x xs)
  unfolding insert
  insert_comm x y [] apart = ground (arith, order.asym x y, order.asym y x)
  insert_comm x y (z ∷ xs) apart = ground (
    arith,
    insert_comm x y xs apart,
    order.asym x y,
    order.asym y x,
    order.cotrans x y z,
    order.cotrans y x z,
    order.cotrans x z y,
    order.cotrans y z x,
    order.cotrans z x y,
    order.cotrans z y x,
  )

  pub In-perm : {xs ys : List A} (x : A) → Permᴰ xs ys → In x ys → In x xs
  In-perm x Permᴰ.nil m = m
  In-perm x (Permᴰ.cons e r) (inl h) = inl (h ∙ sym e)
  In-perm x (Permᴰ.cons e r) (inr m) = inr (In-perm x r m)
  In-perm x (Permᴰ.swap e f) (inl h) = inr (inl (h ∙ sym f))
  In-perm x (Permᴰ.swap e f) (inr (inl h)) = inl (h ∙ sym e)
  In-perm x (Permᴰ.swap e f) (inr (inr m)) = inr (inr m)
  In-perm x (Permᴰ.trans p q) m = In-perm x p (In-perm x q m)

  -- The sorted list depends only on which elements are there.
  pub sort_unique :
      {xs ys : List A}
      → Permᴰ xs ys
      → ((x y : A) → In x xs → In y xs → Apart x y)
      → sort less xs ≡ sort less ys
  unfolding sort
  sort_unique Permᴰ.nil apart = refl
  sort_unique (Permᴰ.cons {a = x} e r) apart =
      rw (e, sort_unique r (λ u v mu mv. apart u v (inr mu) (inr mv)))
  sort_unique (Permᴰ.swap {a = x} {b = y} {l = l} e f) apart =
      rw (← e, ← f) (insert_comm x y (sort less l) (apart x y (inl refl) (inr (inl refl))))
  sort_unique (Permᴰ.trans p q) apart =
      sort_unique p apart ∙ sort_unique q (λ u v mu mv. apart u v (In-perm u p mu) (In-perm v p mv))
