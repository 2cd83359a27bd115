-- ===== src/Base/Lists.antt =====
-- Lists: membership by recursion, which the tactics read, the first element that passes a test.
use Prim.Native.Nat.{ℕ, zero, suc, ◌+◌, ◌-◌}
use mathlib.Core.Path.{◌≡◌, refl, ap}
use mathlib.Core.Logic.{◌⊎◌, inl, inr}
use mathlib.Core.Bool.{Bool, true, false}
use mathlib.Core.Option.{Option, none, some}
use mathlib.Core.List.{List, [], ◌∷◌, ◌++◌, map}
use native.Mathlib.Omega.{arith}
use anix_ops_sd_wan.Base.Tests.{if◌then◌else◌, Bool-cases}

module _ {ℓ} {A : Type ℓ} where
  abbrev pub length : List A → ℕ
  length [] = 0
  length (x ∷ xs) = suc (length xs)

  pub length-append : (xs ys : List A) → length (xs ++ ys) ≡ length xs + length ys
  length-append [] ys = omega arith
  length-append (x ∷ xs) ys = omega (arith, length-append xs ys)

  abbrev pub drop : ℕ → List A → List A
  drop zero xs = xs
  drop (suc n) [] = []
  drop (suc n) (x ∷ xs) = drop n xs

  pub length-drop : (n : ℕ) (xs : List A) → length (drop n xs) ≡ length xs - n
  length-drop zero xs = omega arith
  length-drop (suc n) [] = omega arith
  length-drop (suc n) (x ∷ xs) = omega (arith, length-drop n xs)

module _ {A : Type 0} where
  -- `x` occurs in the list.
  abbrev pub In : A → List A → Type 0
  In x [] = ⊥
  In x (y ∷ ys) = (x ≡ y) ⊎ In x ys

  pub In-append_right : (x : A) (xs ys : List A) → In x ys → In x (xs ++ ys)
  In-append_right x [] ys h = h
  In-append_right x (y ∷ xs) ys h = inr (In-append_right x xs ys h)

  pub In-append_left : (x : A) (xs ys : List A) → In x xs → In x (xs ++ ys)
  In-append_left x [] ys h = elim h [ ]
  In-append_left x (y ∷ xs) ys (inl e) = inl e
  In-append_left x (y ∷ xs) ys (inr h) = inr (In-append_left x xs ys h)

  pub In-append : (x : A) (xs ys : List A) → In x (xs ++ ys) → In x xs ⊎ In x ys
  In-append x [] ys h = inr h
  In-append x (y ∷ xs) ys (inl e) = inl (inl e)
  In-append x (y ∷ xs) ys (inr h) = elim (In-append x xs ys h) [
    | inl l ↦ inl (inr l)
    | inr r ↦ inr r
  ]

  -- for _, x := range xs { if test(x) { return x } }
  unfoldable pub find_first : (A → Bool) → List A → Option A
  find_first p [] = none
  find_first p (x ∷ xs) = if p x then some x else find_first p xs

  pub find_first-eq-some :
      (p : A → Bool) (xs : List A) {x : A} → find_first p xs ≡ some x → In x xs × (p x ≡ true)
  unfolding find_first
  find_first-eq-some p [] h = cc
  find_first-eq-some p (y ∷ xs) h = elim (Bool-cases (p y)) [
    | inl hit ↦ ground arith
    | inr miss ↦ let (m, t) = find_first-eq-some p xs (ground arith) in (inr m, t)
  ]

  pub find_first-eq-none :
      (p : A → Bool) (xs : List A) (x : A) → find_first p xs ≡ none → In x xs → p x ≡ false
  unfolding find_first
  find_first-eq-none p [] x h m = elim m [ ]
  find_first-eq-none p (y ∷ xs) x h (inl e) = ground arith
  find_first-eq-none p (y ∷ xs) x h (inr m) = find_first-eq-none p xs x (ground arith) m

  -- The elements that pass, in their order.
  unfoldable pub keep : (A → Bool) → List A → List A
  keep p [] = []
  keep p (x ∷ xs) = let rest = keep p xs in if p x then x ∷ rest else rest

  pub In-keep : (p : A → Bool) (xs : List A) (x : A) → In x (keep p xs) → In x xs × (p x ≡ true)
  unfolding keep
  In-keep p [] x h = elim h [ ]
  In-keep p (y ∷ xs) x h = ground (arith, In-keep p xs x)

  pub In-keep_of : (p : A → Bool) (xs : List A) (x : A) → In x xs → p x ≡ true → In x (keep p xs)
  unfolding keep
  In-keep_of p [] x h t = elim h [ ]
  In-keep_of p (y ∷ xs) x (inl e) t = ground arith
  In-keep_of p (y ∷ xs) x (inr h) t = ground (arith, In-keep_of p xs x h t)

module _ {A B : Type 0} where
  pub In-map : (f : A → B) (xs : List A) (x : A) → In x xs → In (f x) (map f xs)
  In-map f [] x h = elim h [ ]
  In-map f (y ∷ xs) x (inl e) = inl (ap f e)
  In-map f (y ∷ xs) x (inr h) = inr (In-map f xs x h)

  pub In-of_map :
      (f : A → B) (xs : List A) (y : B) → In y (map f xs) → (x : A) × In x xs × (y ≡ f x)
  In-of_map f [] y h = elim h [ ]
  In-of_map f (x ∷ xs) y (inl e) = (x, inl refl, e)
  In-of_map f (x ∷ xs) y (inr h) = let (a, m, e) = In-of_map f xs y h in (a, inr m, e)
