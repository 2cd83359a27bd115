-- ===== src/Edge.antt =====
-- internal/edge/edge.go: the credentials, the rate limiter, the health tracker and the scheduler.
-- A time is the nanoseconds since Go's zero time, so that 0 is `IsZero`.
pub mod Handler
pub mod Forwarder
pub mod Runtime
pub mod Limits
pub mod Ranking
pub mod Ingress
pub mod Failover
mod Tests
use anix_ops_sd_wan.Base.{
  ℕ, ◌+◌, ℤ, pos, lebℤ, ltbℤ, eqbℤ, pos_part, neg_part, ltb, leb, eqb, Text, ◌==◌, less_text, Bool,
  true, false, not, ◌||◌, ◌&&◌, Option, none, some, List, [], ◌∷◌, map, if◌then◌else◌, Outcome, ok,
  err, ◌>>=◌, ◌>>◌, reject,
}
use anix_ops_sd_wan.Base.Sorting.{sort}
use anix_ops_sd_wan.Base.Table.{Table, lookup, put, values}

pub record Credential : Type 0 where
  pub token : Text
  pub tenant_id : Text
  pub device_id : Text

pub record Authenticator : Type 0 where
  pub credentials : Table Credential

pub data EdgeError : Type 0 where
  token_required tenant_required device_required : EdgeError
  limit_not_positive window_not_positive ttl_not_positive : EdgeError
  id_required region_required load_negative observed_required no_healthy_candidate : EdgeError
  node_required address_required duplicate_target no_targets no_target : EdgeError

add_credentials : Table Credential → List Credential → Outcome EdgeError (Table Credential)
add_credentials m [] = ok m
add_credentials m (c ∷ cs) =
    let rest = add_credentials (put c.token c m) cs in
    do
      reject (c.token == []) token_required
      reject (c.tenant_id == []) tenant_required
      reject (c.device_id == []) device_required
      rest

unfoldable pub new_authenticator : List Credential → Outcome EdgeError Authenticator
unfolding add_credentials
new_authenticator credentials = do
  m ← add_credentials [] credentials
  ok (record { credentials = m })

unfoldable pub authenticate : Authenticator → Text → Option Credential
authenticate a token = lookup token a.credentials

pub record Counter : Type 0 where
  pub start : ℕ
  pub used : ℕ

pub record WindowLimiter : Type 0 where
  pub limit : ℤ
  pub window : ℤ
  pub counters : Table Counter

unfoldable pub new_window_limiter : ℤ → ℤ → Outcome EdgeError WindowLimiter
new_window_limiter limit window = do
  reject (lebℤ limit (pos 0)) limit_not_positive
  reject (lebℤ window (pos 0)) window_not_positive
  ok (record { limit = limit; window = window; counters = [] })

-- now.Sub(start) >= d. Where Sub stops at the largest or smallest Duration the test is the same,
-- since d is a Duration.
abbrev pub sub_ge : ℕ → ℕ → ℤ → Bool
sub_ge now start d = leb (pos_part d + start) (now + neg_part d)

-- now.Sub(start) <= d
abbrev pub sub_le : ℕ → ℕ → ℤ → Bool
sub_le now start d = leb (now + neg_part d) (pos_part d + start)

-- l.counters[key], the zero counter where the key is missing
abbrev pub counter_or_zero : Option Counter → Counter
counter_or_zero none = record { start = 0; used = 0 }
counter_or_zero (some c) = c

-- The counter as a call at this time finds it: a new window where the old one is over.
unfoldable pub current_counter : WindowLimiter → Text → ℕ → Counter
current_counter l key now =
    let current = counter_or_zero (lookup key l.counters) in
    if eqb current.start 0 || sub_ge now current.start l.window
    then record { start = now; used = 0 }
    else current

unfoldable pub allow : WindowLimiter → Text → ℕ → WindowLimiter × Bool
allow l key now =
    let current = current_counter l key now in
    if lebℤ l.limit (pos current.used)
    then (record l { counters = put key current l.counters }, false)
    else (
      record l { counters = put key (record current { used = current.used + 1 }) l.counters },
      true,
    )

pub record Candidate : Type 0 where
  pub id : Text
  pub region : Text
  pub healthy : Bool
  pub load : ℤ

pub record Heartbeat : Type 0 where
  pub id : Text
  pub region : Text
  pub load : ℤ
  pub observed : ℕ

pub record HealthTracker : Type 0 where
  pub ttl : ℤ
  pub nodes : Table Heartbeat

unfoldable pub new_health_tracker : ℤ → Outcome EdgeError HealthTracker
new_health_tracker ttl = do
  reject (lebℤ ttl (pos 0)) ttl_not_positive
  ok (record { ttl = ttl; nodes = [] })

unfoldable pub observe : HealthTracker → Heartbeat → Outcome EdgeError HealthTracker
observe t heartbeat = do
  reject (heartbeat.id == []) id_required
  reject (heartbeat.region == []) region_required
  reject (ltbℤ heartbeat.load (pos 0)) load_negative
  reject (eqb heartbeat.observed 0) observed_required
  ok (record t { nodes = put heartbeat.id heartbeat t.nodes })

-- What the tracker says of a node at this time.
unfoldable pub candidate_of : HealthTracker → ℕ → Heartbeat → Candidate
candidate_of t now heartbeat = record {
  id = heartbeat.id;
  region = heartbeat.region;
  healthy = not (eqb heartbeat.observed 0) && sub_le now heartbeat.observed t.ttl;
  load = heartbeat.load;
}

abbrev pub id_before : Candidate → Candidate → Bool
id_before a b = less_text a.id b.id

unfoldable pub candidates : HealthTracker → ℕ → List Candidate
candidates t now = sort id_before (map (candidate_of t now) (values t.nodes))

abbrev pub candidate_before : Candidate → Candidate → Bool
candidate_before a b = if eqbℤ a.load b.load then less_text a.id b.id else ltbℤ a.load b.load

-- The loop of Rank: the healthy candidates, unless one met on the way has no ID.
unfoldable pub healthy_candidates : List Candidate → Outcome EdgeError (List Candidate)
healthy_candidates [] = ok []
healthy_candidates (c ∷ cs) =
    let rest = healthy_candidates cs in
    do
      reject (c.id == []) id_required
      healthy ← rest
      ok (if c.healthy then c ∷ healthy else healthy)

rank_healthy : List Candidate → Outcome EdgeError (List Candidate)
rank_healthy [] = err no_healthy_candidate
rank_healthy (c ∷ cs) = ok (sort candidate_before (c ∷ cs))

unfoldable pub rank : List Candidate → Outcome EdgeError (List Candidate)
unfolding rank_healthy
rank cs = do healthy ← healthy_candidates cs; rank_healthy healthy

-- ranked[0]; Rank returns no empty list.
first_ranked : List Candidate → Outcome EdgeError Candidate
first_ranked [] = err no_healthy_candidate
first_ranked (c ∷ cs) = ok c

unfoldable pub pick : List Candidate → Outcome EdgeError Candidate
unfolding first_ranked
pick cs = do ranked ← rank cs; first_ranked ranked
