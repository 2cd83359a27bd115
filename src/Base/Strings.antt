-- ===== src/Base/Strings.antt =====
-- Go strings as their runes, with the functions of package `strings` that the program calls.
-- Valid UTF-8 is ordered by its bytes as by its runes, so `<` is the lexicographic order.
use Prim.Native.Nat.{ℕ}
use Prim.Native.Char.{code}
use Prim.Native.String.{String}
use mathlib.Core.Path.{◌≡◌, refl, sym, ap, ◌∙◌}
use mathlib.Core.Logic.{◌↔◌}
use mathlib.Core.Bool.{Bool, true, false, not, ◌&&◌, ◌||◌}
use mathlib.Core.List.{List, [], ◌∷◌, ◌++◌, reverse, reverse_aux, reverse-append, reverse-reverse}
use native.Mathlib.Omega.{arith}
use anix_ops_sd_wan.Base.Tests.{ltb, leb, eqb, eqb_iff, and_true, if◌then◌else◌}

abbrev pub Text : Type 0
Text = List ℕ

-- The runes of a literal.
abbrev pub str : String → Text
str String.[] = []
str (String.◌∷◌ c s) = code c ∷ str s

infix 50 ◌==◌
-- s == t
unfoldable pub ◌==◌ : Text → Text → Bool
[] == [] = true
[] == (y ∷ t) = false
(x ∷ s) == [] = false
(x ∷ s) == (y ∷ t) = eqb x y && s == t

pub eq_iff : (s t : Text) → ((s == t) ≡ true) ↔ (s ≡ t)
unfolding ◌==◌
eq_iff [] [] = (λ h. refl, λ h. refl)
eq_iff [] (y ∷ t) = (λ h. cc, λ h. cc)
eq_iff (x ∷ s) [] = (λ h. cc, λ h. cc)
eq_iff (x ∷ s) (y ∷ t) = ground (arith, eq_iff s t)

pub eq_refl : (s : Text) → (s == s) ≡ true
eq_refl s = (eq_iff s s).1 refl

-- s < t
unfoldable pub less_text : Text → Text → Bool
less_text s [] = false
less_text [] (y ∷ t) = true
less_text (x ∷ s) (y ∷ t) = ltb x y || (eqb x y && less_text s t)

pub less_text_irrefl : (s : Text) → less_text s s ≡ false
unfolding less_text
less_text_irrefl [] = refl
less_text_irrefl (x ∷ s) = ground (arith, less_text_irrefl s)

pub less_text_asym : (s t : Text) → less_text s t ≡ true → less_text t s ≡ false
unfolding less_text
less_text_asym [] [] h = refl
less_text_asym [] (y ∷ t) h = refl
less_text_asym (x ∷ s) [] h = cc
less_text_asym (x ∷ s) (y ∷ t) h = ground (arith, less_text_asym s t)

pub less_text_antisym : (s t : Text) → less_text s t ≡ false → less_text t s ≡ false → s ≡ t
unfolding less_text
less_text_antisym [] [] h k = refl
less_text_antisym [] (y ∷ t) h k = cc
less_text_antisym (x ∷ s) [] h k = cc
less_text_antisym (x ∷ s) (y ∷ t) h k = ground (arith, less_text_antisym s t)

pub less_text_cotrans :
    (s t u : Text) → less_text t s ≡ false → less_text u t ≡ false → less_text u s ≡ false
unfolding less_text
less_text_cotrans [] [] [] h k = refl
less_text_cotrans [] [] (z ∷ u) h k = refl
less_text_cotrans [] (y ∷ t) [] h k = cc
less_text_cotrans [] (y ∷ t) (z ∷ u) h k = refl
less_text_cotrans (x ∷ s) [] [] h k = cc
less_text_cotrans (x ∷ s) [] (z ∷ u) h k = cc
less_text_cotrans (x ∷ s) (y ∷ t) [] h k = cc
less_text_cotrans (x ∷ s) (y ∷ t) (z ∷ u) h k = ground (arith, less_text_cotrans s t u)

-- unicode.IsSpace
unfoldable pub is_space : ℕ → Bool
is_space c =
    (leb 9 c && leb c 13)
    || eqb c 32
    || eqb c 0x85
    || eqb c 0xa0
    || eqb c 0x1680
    || (leb 0x2000 c && leb c 0x200a)
    || eqb c 0x2028
    || eqb c 0x2029
    || eqb c 0x202f
    || eqb c 0x205f
    || eqb c 0x3000

trim_left : Text → Text
trim_left [] = []
trim_left (c ∷ s) = if is_space c then trim_left s else c ∷ s

-- strings.TrimSpace
unfoldable pub trim_space : Text → Text
unfolding is_space trim_left
trim_space s = reverse (trim_left (reverse (trim_left s)))

-- strings.TrimSpace(s) == ""
abbrev pub is_blank : Text → Bool
is_blank s = trim_space s == []

-- Some rune is not a space.
has_ink : Text → Bool
has_ink [] = false
has_ink (c ∷ s) = not (is_space c) || has_ink s

has_ink-reverse_aux : (s t : Text) → has_ink (reverse_aux s t) ≡ (has_ink s || has_ink t)
unfolding has_ink
has_ink-reverse_aux [] t = refl
has_ink-reverse_aux (c ∷ s) t = ground (arith, has_ink-reverse_aux s (c ∷ t))

nil-reverse_aux : (s t : Text) → (reverse_aux s t == []) ≡ (s == [] && t == [])
unfolding ◌==◌
nil-reverse_aux [] t = refl
nil-reverse_aux (c ∷ s) t = ground (arith, nil-reverse_aux s (c ∷ t))

has_ink-trim_left :
    (s : Text) → (has_ink (trim_left s) ≡ has_ink s) × ((trim_left s == []) ≡ not (has_ink s))
unfolding has_ink trim_left ◌==◌
has_ink-trim_left [] = (refl, refl)
has_ink-trim_left (c ∷ s) = ground (arith, has_ink-trim_left s)

has_ink-trim_space :
    (s : Text) → (has_ink (trim_space s) ≡ has_ink s) × (is_blank s ≡ not (has_ink s))
unfolding trim_space has_ink ◌==◌
has_ink-trim_space s =
    let t = trim_left s in
    let u = trim_left (reverse t) in
    ground (
      arith,
      has_ink-trim_left s,
      has_ink-trim_left (reverse t),
      has_ink-reverse_aux t [],
      has_ink-reverse_aux u [],
      nil-reverse_aux u [],
    )

-- What is left of a text that is not blank is not blank.
pub is_blank-trim_space : (s : Text) → is_blank (trim_space s) ≡ is_blank s
is_blank-trim_space s =
    let first = has_ink-trim_space s in
    let second = has_ink-trim_space (trim_space s) in second.1 ∙ ap not first.0 ∙ sym first.1

-- strings.HasPrefix
unfoldable pub has_prefix : Text → Text → Bool
has_prefix s [] = true
has_prefix [] (y ∷ t) = false
has_prefix (x ∷ s) (y ∷ t) = eqb x y && has_prefix s t

drop_prefix : Text → Text → Text
drop_prefix s [] = s
drop_prefix [] (y ∷ t) = []
drop_prefix (x ∷ s) (y ∷ t) = drop_prefix s t

-- strings.TrimPrefix
unfoldable pub trim_prefix : Text → Text → Text
unfolding has_prefix drop_prefix
trim_prefix s t = if has_prefix s t then drop_prefix s t else s

-- strings.HasSuffix
unfoldable pub has_suffix : Text → Text → Bool
unfolding has_prefix
has_suffix s t = has_prefix (reverse s) (reverse t)

-- strings.TrimSuffix
unfoldable pub trim_suffix : Text → Text → Text
unfolding trim_prefix
trim_suffix s t = reverse (trim_prefix (reverse s) (reverse t))

has_prefix-append : (s t : Text) → has_prefix (t ++ s) t ≡ true
unfolding has_prefix
has_prefix-append s [] = refl
has_prefix-append s (y ∷ t) = ground (arith, has_prefix-append s t)

has_prefix-split : (s t : Text) → has_prefix s t ≡ true → (r : Text) × (s ≡ t ++ r)
unfolding has_prefix
has_prefix-split s [] h = (s, refl)
has_prefix-split [] (y ∷ t) h = cc
has_prefix-split (x ∷ s) (y ∷ t) h =
    let (r, e) = has_prefix-split s t (and_true (eqb x y) (has_prefix s t) h).1 in
    (r, cc ((eqb_iff x y).0 (and_true (eqb x y) (has_prefix s t) h).0))

-- A suffix is what some text ends in.
pub has_suffix_iff : (s t : Text) → (has_suffix s t ≡ true) ↔ ((r : Text) × (s ≡ r ++ t))
unfolding has_suffix
has_suffix_iff s t = (split, join)
  where
    split : has_prefix (reverse s) (reverse t) ≡ true → (r : Text) × (s ≡ r ++ t)
    split h =
        let (r, e) = has_prefix-split (reverse s) (reverse t) h in
        (
          reverse r,
          sym (reverse-reverse s)
              ∙ ap reverse e
              ∙ reverse-append (reverse t) r
              ∙ ap (◌++◌ (reverse r)) (reverse-reverse t),
        )

    join : ((r : Text) × (s ≡ r ++ t)) → has_prefix (reverse s) (reverse t) ≡ true
    join (r, e) = rw (e, reverse-append r t) (has_prefix-append (reverse r) (reverse t))

-- strings.Contains
unfoldable pub contains : Text → Text → Bool
unfolding has_prefix
contains [] t = t == []
contains (x ∷ s) t = has_prefix (x ∷ s) t || contains s t

holds_rune : Text → ℕ → Bool
holds_rune [] c = false
holds_rune (d ∷ s) c = eqb d c || holds_rune s c

-- strings.ContainsAny
unfoldable pub contains_any : Text → Text → Bool
unfolding holds_rune
contains_any [] chars = false
contains_any (c ∷ s) chars = holds_rune chars c || contains_any s chars

in_front : ℕ → List Text → List Text
in_front c [] = (c ∷ []) ∷ []
in_front c (part ∷ parts) = (c ∷ part) ∷ parts

-- strings.Split at a separator of one rune
unfoldable pub split : ℕ → Text → List Text
unfolding in_front
split sep [] = [] ∷ []
split sep (c ∷ s) = let parts = split sep s in if eqb c sep then [] ∷ parts else in_front c parts
