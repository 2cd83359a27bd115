-- ===== src/Agent/Backoff.antt =====
-- The waits of runSyncLoop (internal/agent/sync.go): a time.Duration is an int64, whose products wrap.
use anix_ops_sd_wan.Base.{
  ℕ, zero, suc, ◌*◌, ◌≤◌, ◌<◌, ℤ, pos, negsuc, pos_part, wrap_int, lebℤ, ltbℤ, leb, Bool, true,
  false, ◌||◌, List, [], ◌∷◌, ◌≡◌, refl, sym, ap, ◌∙◌, arith, if◌then◌else◌, Outcome, ok, ◌>>◌,
  reject,
}

pub record SyncLoopOptions : Type 0 where
  pub interval : ℤ
  pub initial_backoff : ℤ
  pub max_backoff : ℤ

pub data LoopError : Type 0 where
  interval_not_positive max_below_initial : LoopError

unfoldable pub normalize_sync_loop_options : SyncLoopOptions → Outcome LoopError SyncLoopOptions
normalize_sync_loop_options o = do
  reject (lebℤ o.interval (pos 0)) interval_not_positive
  let initial = if lebℤ o.initial_backoff (pos 0) then o.interval else o.initial_backoff
  let max = if lebℤ o.max_backoff (pos 0) then wrap_int (pos_part initial * 8) else o.max_backoff
  reject (ltbℤ max initial) max_below_initial
  ok (record { interval = o.interval; initial_backoff = initial; max_backoff = max })

unfoldable pub next_sync_backoff : ℤ → ℤ → ℤ
next_sync_backoff current max =
    let next = wrap_int (pos_part current * 2) in
    if lebℤ current (pos 0) then max else if ltbℤ next current || ltbℤ max next then max else next

-- The delays of the loop, by whether each round succeeds.
unfoldable pub delays : SyncLoopOptions → ℤ → List Bool → List ℤ
delays o backoff [] = []
delays o backoff (true ∷ rounds) = o.interval ∷ delays o o.initial_backoff rounds
delays o backoff (false ∷ rounds) =
    backoff ∷ delays o (next_sync_backoff backoff o.max_backoff) rounds

-- The options of a loop that runs: positive, and the bounds in order and within an int64.
abbrev pub IsNormal : SyncLoopOptions → Type 0
IsNormal o =
    (ltbℤ (pos 0) o.interval ≡ true)
    × (ltbℤ (pos 0) o.initial_backoff ≡ true)
    × (ltbℤ o.max_backoff o.initial_backoff ≡ false)
    × (pos_part o.max_backoff < 0x8000000000000000)

abbrev pub min : ℕ → ℕ → ℕ
min a b = if leb a b then a else b

next_sync_backoff-min :
    (c m : ℕ)
    → 0 < c
    → c ≤ m
    → m < 0x8000000000000000
    → next_sync_backoff (pos c) (pos m) ≡ pos (min (c * 2) m)
unfolding next_sync_backoff wrap_int
next_sync_backoff-min c m h k l = ground arith

normalize-IsNormal :
    (o o' : SyncLoopOptions)
    → pos_part o.interval < 0x8000000000000000
    → pos_part o.initial_backoff < 0x8000000000000000
    → pos_part o.max_backoff < 0x8000000000000000
    → normalize_sync_loop_options o ≡ ok o'
    → IsNormal o'
unfolding normalize_sync_loop_options wrap_int
normalize-IsNormal o o' a b c h = ground (arith, h)

pos-part : (a : ℤ) → ltbℤ (pos 0) a ≡ true → a ≡ pos (pos_part a)
pos-part (pos n) h = refl
pos-part (negsuc n) h = ground arith

-- A first wait that doubles with each failure.
abbrev pub doubled : ℕ → ℕ → ℕ
doubled i zero = i
doubled i (suc k) = doubled i k * 2

doubled-positive : (i k : ℕ) → 0 < i → 0 < doubled i k
doubled-positive i zero h = h
doubled-positive i (suc k) h = omega (arith, doubled-positive i k h)

-- What the loop is meant to wait: the interval after a success, and after the failure that follows
-- on k others the first wait doubled k times, up to the greatest.
abbrev pub capped : ℤ → ℕ → ℕ → ℕ → List Bool → List ℤ
capped interval i m k [] = []
capped interval i m k (true ∷ rounds) = interval ∷ capped interval i m 0 rounds
capped interval i m k (false ∷ rounds) =
    pos (min (doubled i k) m) ∷ capped interval i m (suc k) rounds

next-doubled :
    (i m k : ℕ)
    → 0 < i
    → i ≤ m
    → m < 0x8000000000000000
    → next_sync_backoff (pos (min (doubled i k) m)) (pos m) ≡ pos (min (doubled i (suc k)) m)
next-doubled i m k h l b =
    let up = doubled-positive i k h in
    next_sync_backoff-min (min (doubled i k) m) m (ground arith) (ground arith) b ∙ ground arith

delays-doubled :
    (o : SyncLoopOptions) (i m k : ℕ) (rounds : List Bool)
    → o.initial_backoff ≡ pos i
    → o.max_backoff ≡ pos m
    → 0 < i
    → i ≤ m
    → m < 0x8000000000000000
    → delays o (pos (min (doubled i k) m)) rounds ≡ capped o.interval i m k rounds
unfolding delays
delays-doubled o i m k [] e f h l b = refl
delays-doubled o i m k (true ∷ rounds) e f h l b =
    let start : o.initial_backoff ≡ pos (min (doubled i 0) m) = ground arith in
    rw start (ap (◌∷◌ o.interval) (delays-doubled o i m 0 rounds e f h l b))
delays-doubled o i m k (false ∷ rounds) e f h l b =
    rw (f, next-doubled i m k h l b)
      (ap (◌∷◌ (pos (min (doubled i k) m))) (delays-doubled o i m (suc k) rounds e f h l b))

-- Where a loop starts, with options that are int64 values, its delays are the interval after each
-- success and, after the failure that follows on k others since the last success, the normalized
-- first backoff doubled k times, but at most the normalized greatest: the overflow of the doubling
-- does not show.
pub delays-capped :
    (o o' : SyncLoopOptions) (rounds : List Bool)
    → pos_part o.interval < 0x8000000000000000
    → pos_part o.initial_backoff < 0x8000000000000000
    → pos_part o.max_backoff < 0x8000000000000000
    → normalize_sync_loop_options o ≡ ok o'
    → delays o' o'.initial_backoff rounds
      ≡ capped o'.interval (pos_part o'.initial_backoff) (pos_part o'.max_backoff) 0 rounds
delays-capped o o' rounds a b c h =
    let (run, first, order, bound) = normalize-IsNormal o o' a b c h in
    let i = pos_part o'.initial_backoff in
    let m = pos_part o'.max_backoff in
    let e = pos-part o'.initial_backoff first in
    let f = pos-part o'.max_backoff (ground (arith, first, order)) in
    let start : pos (min (doubled i 0) m) ≡ o'.initial_backoff = ground (arith, e, f, order) in
    ap (λ d. delays o' d rounds) (sym start)
    ∙ delays-doubled o' i m 0 rounds e f (ground (arith, e, first)) (ground (arith, e, f, order))
        bound
