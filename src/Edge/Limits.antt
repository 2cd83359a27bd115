-- ===== src/Edge/Limits.antt =====
-- WindowLimiter of internal/edge/edge.go: how many calls it lets through.
use anix_ops_sd_wan.Base.{
  ℕ, ◌+◌, ◌*◌, ◌≤◌, ◌<◌, ℤ, pos, lebℤ, eqb, ◌||◌, Text, ◌==◌, eq_iff, eq_refl, Bool, true, false,
  ◌≡◌, refl, inl, inr, List, [], ◌∷◌, arith, if◌then◌else◌, Bool-cases, ok,
}
use anix_ops_sd_wan.Base.Sorting.{All}
use anix_ops_sd_wan.Base.Table.{lookup, put, lookup-put}
use anix_ops_sd_wan.Edge.{
  Counter, WindowLimiter, new_window_limiter, counter_or_zero, current_counter, sub_ge, allow,
}

abbrev pub counter_of : WindowLimiter → Text → Counter
counter_of l key = counter_or_zero (lookup key l.counters)

-- The limiter after calls for any keys at any times.
unfoldable pub run : WindowLimiter → List (Text × ℕ) → WindowLimiter
run l [] = l
run l ((key, now) ∷ calls) = run (allow l key now).0 calls

-- How many of the calls are for this key and let through.
unfoldable pub served : WindowLimiter → Text → List (Text × ℕ) → ℕ
served l key [] = 0
served l key ((k, now) ∷ calls) =
    let (l', granted) = allow l k now in
    let rest = served l' key calls in
    if k == key then (if granted then rest + 1 else rest) else rest

-- What a call does to the counter of its key, and whether it is let through.
abbrev counter_step : ℤ → ℤ → Counter → ℕ → Counter × Bool
counter_step limit window c now =
    let current : Counter =
      if eqb c.start 0 || sub_ge now c.start window then record { start = now; used = 0 } else c in
    if lebℤ limit (pos current.used)
    then (current, false)
    else (record current { used = current.used + 1 }, true)

module _ (l : WindowLimiter) (k key : Text) (now : ℕ) where
  abbrev after : Counter × Bool
  after = counter_step l.limit l.window (counter_of l k) now

  granted-allow : (allow l k now).1 ≡ after.1
  unfolding allow current_counter
  granted-allow = ground arith

  counters-allow : (allow l k now).0 ≡ record l { counters = put k after.0 l.counters }
  unfolding allow current_counter
  counters-allow = ground arith

  counter_of-allow :
      counter_of (allow l k now).0 key ≡ (if k == key then after.0 else counter_of l key)
  counter_of-allow = rw counters-allow (ground (arith, lookup-put k key after.0 l.counters))

-- The calls of one key alone.
serve_times : ℤ → ℤ → Counter → List ℕ → ℕ
serve_times limit window c [] = 0
serve_times limit window c (t ∷ ts) =
    let (c', granted) = counter_step limit window c t in
    let rest = serve_times limit window c' ts in if granted then rest + 1 else rest

times_of : Text → List (Text × ℕ) → List ℕ
times_of key [] = []
times_of key ((k, now) ∷ calls) =
    let rest = times_of key calls in if k == key then now ∷ rest else rest

served-serve_times :
    (limit window : ℤ) (l : WindowLimiter) (key : Text) (calls : List (Text × ℕ))
    → l.limit ≡ limit
    → l.window ≡ window
    → served l key calls ≡ serve_times limit window (counter_of l key) (times_of key calls)
unfolding served serve_times times_of
served-serve_times limit window l key [] p q = refl
served-serve_times limit window l key ((k, now) ∷ calls) p q = ground (
  arith,
  counters-allow l k key now,
  granted-allow l k key now,
  counter_of-allow l k key now,
  served-serve_times limit window (allow l k now).0 key calls,
  eq_iff k key,
)

module _ (limit window : ℕ) where
  -- Inside one window the limit is left, less what was used.
  serve_times_within :
      (c : Counter) (ts : List ℕ)
      → 0 < c.start
      → c.used ≤ limit
      → All (λ t. t < c.start + window) ts
      → serve_times (pos limit) (pos window) c ts + c.used ≤ limit
  unfolding serve_times
  serve_times_within c [] s u a = omega arith
  serve_times_within c (t ∷ ts) s u a = ground (
    arith,
    serve_times_within c ts s u a.1,
    serve_times_within (record c { used = c.used + 1 }) ts,
  )

  window_ahead :
      (from start : ℕ) (ts : List ℕ)
      → from ≤ start
      → All (λ t. (from ≤ t) × (t < from + window)) ts
      → All (λ t. t < start + window) ts
  window_ahead from start [] h a = tt
  window_ahead from start (t ∷ ts) h a = (omega arith, window_ahead from start ts h a.1)

  -- Over a stretch no longer than a window at most one new window begins.
  serve_times_stretch :
      (from : ℕ) (c : Counter) (ts : List ℕ)
      → 0 < limit
      → 0 < from
      → c.used ≤ limit
      → All (λ t. (from ≤ t) × (t < from + window)) ts
      → serve_times (pos limit) (pos window) c ts + c.used ≤ 2 * limit
  unfolding serve_times
  serve_times_stretch from c [] p f u a = omega arith
  serve_times_stretch from c (t ∷ ts) p f u a = ground (
    arith,
    serve_times_stretch from c ts p f u a.1,
    serve_times_stretch from (record c { used = c.used + 1 }) ts p f,
    serve_times_within (record { start = t; used = 1 }) ts,
    window_ahead from t ts,
  )

  record IsWithin (key : Text) (l : WindowLimiter) : Type 0 where
    same_limit : l.limit ≡ pos limit
    same_window : l.window ≡ pos window
    within : (counter_of l key).used ≤ limit

  allow-IsWithin :
      (key : Text) (l : WindowLimiter) (k : Text) (now : ℕ)
      → 0 < limit
      → IsWithin key l
      → IsWithin key (allow l k now).0
  allow-IsWithin key l k now p v = record {
    same_limit = rw (counters-allow l k key now) v.same_limit;
    same_window = rw (counters-allow l k key now) v.same_window;
    within = ground (arith, counter_of-allow l k key now, eq_iff k key, v.within, v.same_limit);
  }

  run-IsWithin :
      (key : Text) (l : WindowLimiter) (calls : List (Text × ℕ))
      → 0 < limit
      → IsWithin key l
      → IsWithin key (run l calls)
  unfolding run
  run-IsWithin key l [] p v = v
  run-IsWithin key l ((k, now) ∷ calls) p v =
      run-IsWithin key (allow l k now).0 calls p (allow-IsWithin key l k now p v)

  times_of-All :
      (P : ℕ → Type 0) (key : Text) (calls : List (Text × ℕ))
      → All (λ c. P c.1) calls
      → All P (times_of key calls)
  unfolding times_of
  times_of-All P key [] a = tt
  times_of-All P key ((k, now) ∷ calls) a = elim (Bool-cases (k == key)) [
    | inl e ↦ rw e (a.0, times_of-All P key calls a.1)
    | inr e ↦ rw e (times_of-All P key calls a.1)
  ]

  made-IsWithin :
      (key : Text) (l : WindowLimiter)
      → new_window_limiter (pos limit) (pos window) ≡ ok l
      → (0 < limit) × IsWithin key l
  unfolding new_window_limiter lookup
  made-IsWithin key l made = (
    ground arith,
    record { same_limit = ground arith; same_window = ground arith; within = ground arith },
  )

  -- A limiter made with a limit and a window, whatever calls it has seen, lets through at most
  -- twice the limit of the calls of one key in any stretch of time no longer than the window, in
  -- whatever order the calls of this and of other keys come.
  pub served-le :
      (l : WindowLimiter) (key : Text) (earlier calls : List (Text × ℕ)) (from : ℕ)
      → new_window_limiter (pos limit) (pos window) ≡ ok l
      → 0 < from
      → All (λ c. (from ≤ c.1) × (c.1 < from + window)) calls
      → served (run l earlier) key calls ≤ 2 * limit
  served-le l key earlier calls from made f a =
      let (p, v) = made-IsWithin key l made in
      let w = run-IsWithin key l earlier p v in
      let c = counter_of (run l earlier) key in
      omega (
        arith,
        served-serve_times (pos limit) (pos window) (run l earlier) key calls w.same_limit
            w.same_window,
        serve_times_stretch from c (times_of key calls) p f w.within
            (times_of-All (λ t. (from ≤ t) × (t < from + window)) key calls a),
      )

  serve_times_fresh :
      (c : Counter) (now : ℕ) (ts : List ℕ)
      → 0 < limit
      → 0 < now
      → (eqb c.start 0 || sub_ge now c.start (pos window)) ≡ true
      → All (λ t. t < now + window) ts
      → serve_times (pos limit) (pos window) c (now ∷ ts) ≤ limit
  unfolding serve_times
  serve_times_fresh c now ts p n fresh a =
      ground (arith, fresh, serve_times_within (record { start = now; used = 1 }) ts)

  times_of_self :
      (key : Text) (now : ℕ) (calls : List (Text × ℕ))
      → times_of key ((key, now) ∷ calls) ≡ now ∷ times_of key calls
  unfolding times_of
  times_of_self key now calls = rw eq_refl

  -- A call that begins a window leaves room for the limit and no more: of it and the calls that
  -- follow before the window is over, in whatever order those of its key and of others come, at
  -- most the limit are let through for its key.
  pub served-window :
      (l : WindowLimiter) (key : Text) (earlier calls : List (Text × ℕ)) (now : ℕ)
      → new_window_limiter (pos limit) (pos window) ≡ ok l
      → 0 < now
      → (let start = (counter_of (run l earlier) key).start in
          eqb start 0 || sub_ge now start (pos window))
        ≡ true
      → All (λ c. c.1 < now + window) calls
      → served (run l earlier) key ((key, now) ∷ calls) ≤ limit
  served-window l key earlier calls now made n fresh a =
      let (p, v) = made-IsWithin key l made in
      let w = run-IsWithin key l earlier p v in
      rw
        (
          served-serve_times (pos limit) (pos window) (run l earlier) key ((key, now) ∷ calls)
              w.same_limit w.same_window,
          times_of_self key now calls,
        )
        (serve_times_fresh (counter_of (run l earlier) key) now (times_of key calls) p n fresh
          (times_of-All (λ t. t < now + window) key calls a))
