-- ===== src/Base/Table.antt =====
-- A Go map with string keys, as its entries in the order in which the next `range` meets them.
-- Go leaves that order open: what the program computes from a range is proved, or sorted, so that
-- no result depends on it.
use mathlib.Core.Path.{◌≡◌, refl}
use mathlib.Core.Logic.{inl, inr}
use mathlib.Core.Bool.{false}
use mathlib.Core.Option.{Option, none, some}
use mathlib.Core.List.{List, [], ◌∷◌, ◌++◌}
use native.Mathlib.Omega.{arith}
use anix_ops_sd_wan.Base.Tests.{if◌then◌else◌, Bool-cases}
use anix_ops_sd_wan.Base.Strings.{Text, ◌==◌, eq_iff, eq_refl}
use anix_ops_sd_wan.Base.Lists.{In}

abbrev pub Table : Type 0 → Type 0
Table V = List (Text × V)

module _ {V : Type 0} where
  -- v, ok := m[k]
  unfoldable pub lookup : Text → Table V → Option V
  lookup key [] = none
  lookup key ((other, value) ∷ rest) = if other == key then some value else lookup key rest

  -- m[k] = v
  unfoldable pub put : Text → V → Table V → Table V
  put key value [] = (key, value) ∷ []
  put key value ((other, old) ∷ rest) =
      if other == key then (key, value) ∷ rest else (other, old) ∷ put key value rest

  -- delete(m, k)
  unfoldable pub remove : Text → Table V → Table V
  remove k [] = []
  remove k ((j, w) ∷ m) = let rest = remove k m in if j == k then rest else (j, w) ∷ rest

  -- for _, v := range m
  abbrev pub values : Table V → List V
  values [] = []
  values ((j, v) ∷ m) = v ∷ values m

  pub lookup-put :
      (key probe : Text) (value : V) (t : Table V)
      → lookup probe (put key value t) ≡ (if key == probe then some value else lookup probe t)
  unfolding lookup put
  lookup-put key probe value [] = refl
  lookup-put key probe value ((other, old) ∷ rest) = ground (
    arith,
    lookup-put key probe value rest,
    eq_iff other probe,
    eq_iff other key,
    eq_iff key probe,
  )

  pub lookup-put_self : (key : Text) (v : V) (m : Table V) → lookup key (put key v m) ≡ some v
  lookup-put_self key v m = simp (eq_refl, lookup-put)

  pub lookup-remove :
      (k j : Text) (m : Table V) → lookup j (remove k m) ≡ (if k == j then none else lookup j m)
  unfolding lookup remove
  lookup-remove k j [] = ground arith
  lookup-remove k j ((i, w) ∷ m) =
      ground (arith, eq_iff k j, eq_iff i k, eq_iff i j, lookup-remove k j m)

  -- What a key shows is met by a range.
  pub lookup-In : (k : Text) (m : Table V) (v : V) → lookup k m ≡ some v → In v (values m)
  unfolding lookup
  lookup-In k [] v h = cc
  lookup-In k ((j, w) ∷ m) v h = elim (Bool-cases (j == k)) [
    | inl e ↦ inl (ground arith)
    | inr e ↦ inr (lookup-In k m v (ground arith))
  ]

  -- The keys are pairwise different, as they are in every map.
  abbrev pub Fresh : Text → Table V → Type 0
  Fresh k [] = Unit {0}
  Fresh k ((j, v) ∷ m) = ((j == k) ≡ false) × Fresh k m

  abbrev pub IsMap : Table V → Type 0
  IsMap [] = Unit {0}
  IsMap ((k, v) ∷ m) = Fresh k m × IsMap m

  pub Fresh-lookup : (k : Text) (m : Table V) → Fresh k m → lookup k m ≡ none
  unfolding lookup
  Fresh-lookup k [] f = refl
  Fresh-lookup k ((j, v) ∷ m) f = ground (arith, Fresh-lookup k m f.1)

  Fresh-put :
      (j k : Text) (v : V) (m : Table V) → (k == j) ≡ false → Fresh j m → Fresh j (put k v m)
  unfolding put
  Fresh-put j k v [] h f = (h, tt)
  Fresh-put j k v ((i, w) ∷ m) h f = ground (arith, Fresh-put j k v m h f.1)

  Fresh-remove : (j k : Text) (m : Table V) → Fresh j m → Fresh j (remove k m)
  unfolding remove
  Fresh-remove j k [] f = tt
  Fresh-remove j k ((i, w) ∷ m) f = ground (arith, Fresh-remove j k m f.1)

  pub put-IsMap : (k : Text) (v : V) (m : Table V) → IsMap m → IsMap (put k v m)
  unfolding put
  put-IsMap k v [] h = (tt, tt)
  put-IsMap k v ((j, w) ∷ m) h = elim (Bool-cases (j == k)) [
    | inl e ↦ let same : j ≡ k = (eq_iff j k).0 e in rw e (rw (← same) h.0, h.1)
    | inr e ↦
        let ne : (k == j) ≡ false = ground (arith, eq_iff j k, eq_iff k j) in
        rw e (Fresh-put j k v m ne h.0, put-IsMap k v m h.1)
  ]

  pub remove-IsMap : (k : Text) (m : Table V) → IsMap m → IsMap (remove k m)
  unfolding remove
  remove-IsMap k [] h = tt
  remove-IsMap k ((j, w) ∷ m) h = ground (arith, remove-IsMap k m h.1, Fresh-remove j k m h.0)

  -- What a range meets stands under one key.
  pub In-values :
      (m : Table V) (v : V) → IsMap m → In v (values m) → (k : Text) × (lookup k m ≡ some v)
  unfolding lookup
  In-values [] v h i = elim i [ ]
  In-values ((k, w) ∷ m) v h (inl e) = (k, ground (arith, eq_refl k))
  In-values ((k, w) ∷ m) v h (inr i) =
      let (j, e) = In-values m v h.1 i in (j, ground (arith, e, eq_iff k j, Fresh-lookup k m h.0))

  -- What holds of every key with its value.
  abbrev pub Entries : (Text → V → Type 0) → Table V → Type 0
  Entries P [] = Unit {0}
  Entries P ((k, v) ∷ m) = P k v × Entries P m

  pub put-Entries :
      (P : Text → V → Type 0) (k : Text) (v : V) (m : Table V)
      → P k v
      → Entries P m
      → Entries P (put k v m)
  unfolding put
  put-Entries P k v [] p h = (p, tt)
  put-Entries P k v ((j, w) ∷ m) p h = elim (Bool-cases (j == k)) [
    | inl e ↦ rw e (p, h.1)
    | inr e ↦ rw e (h.0, put-Entries P k v m p h.1)
  ]

  pub remove-Entries :
      (P : Text → V → Type 0) (k : Text) (m : Table V) → Entries P m → Entries P (remove k m)
  unfolding remove
  remove-Entries P k [] h = tt
  remove-Entries P k ((j, w) ∷ m) h = elim (Bool-cases (j == k)) [
    | inl e ↦ rw e (remove-Entries P k m h.1)
    | inr e ↦ rw e (h.0, remove-Entries P k m h.1)
  ]

  pub lookup-Entries :
      (P : Text → V → Type 0) (k : Text) (m : Table V) {v : V}
      → Entries P m
      → lookup k m ≡ some v
      → P k v
  unfolding lookup
  lookup-Entries P k [] h e = cc
  lookup-Entries P k ((j, w) ∷ m) {v} h e = elim (Bool-cases (j == k)) [
    | inl same ↦
        let key : j ≡ k = (eq_iff j k).0 same in
        let value : w ≡ v = ground arith in rw (← key, ← value) h.0
    | inr other ↦ lookup-Entries P k m h.1 (ground arith)
  ]

  pub map-Entries :
      (P Q : Text → V → Type 0) (m : Table V)
      → ((k : Text) (v : V) → P k v → Q k v)
      → Entries P m
      → Entries Q m
  map-Entries P Q [] f h = tt
  map-Entries P Q ((k, v) ∷ m) f h = (f k v h.0, map-Entries P Q m f h.1)

  -- A new key stands at the end.
  pub put-Fresh : (k : Text) (v : V) (m : Table V) → Fresh k m → put k v m ≡ m ++ ((k, v) ∷ [])
  unfolding put
  put-Fresh k v [] f = refl
  put-Fresh k v ((j, w) ∷ m) f = ground (arith, f.0, put-Fresh k v m f.1)

  -- No key of the first table stands in the second.
  abbrev pub AreApart : Table V → Table V → Type 0
  AreApart [] m = Unit {0}
  AreApart ((k, v) ∷ r) m = Fresh k m × AreApart r m

  Fresh-append :
      (k j : Text) (v : V) (m : Table V)
      → (j == k) ≡ false
      → Fresh k m
      → Fresh k (m ++ ((j, v) ∷ []))
  Fresh-append k j v [] e f = (e, tt)
  Fresh-append k j v ((i, w) ∷ m) e f = (f.0, Fresh-append k j v m e f.1)

  pub AreApart-append :
      (r m : Table V) (j : Text) (v : V)
      → Fresh j r
      → AreApart r m
      → AreApart r (m ++ ((j, v) ∷ []))
  AreApart-append [] m j v f a = tt
  AreApart-append ((k, w) ∷ r) m j v f a = (
    Fresh-append k j v m (ground (arith, f.0, eq_iff k j, eq_iff j k)) a.0,
    AreApart-append r m j v f.1 a.1,
  )

  pub AreApart-nil : (r : Table V) → AreApart r []
  AreApart-nil [] = tt
  AreApart-nil ((k, v) ∷ r) = (tt, AreApart-nil r)
