-- ===== src/Edge/Tests.antt =====
-- Runs of internal/edge, and the theorems at concrete inputs.
use anix_ops_sd_wan.Base.{
  ℕ, ◌+◌, ◌*◌, ◌≤◌, pos, Text, str, ◌==◌, less_text, has_prefix, trim_space, trim_prefix, true,
  false, ◌≡◌, refl, Option, none, some, List, [], ◌∷◌, arith, In, Outcome, ok,
}
use anix_ops_sd_wan.Base.Sorting.{sort}
use anix_ops_sd_wan.Base.Table.{lookup, put}
use anix_ops_sd_wan.Net.{Net}
use anix_ops_sd_wan.Edge.{
  Credential, Authenticator, WindowLimiter, HealthTracker, Heartbeat, Candidate, EdgeError,
  authenticate, new_window_limiter, current_counter, allow, observe, candidate_of, candidates,
  candidate_before, healthy_candidates, rank, pick,
}
use anix_ops_sd_wan.Edge.Limits.{run, served, served-le}
use anix_ops_sd_wan.Edge.Ranking.{pick_best, IsTracker}
use anix_ops_sd_wan.Edge.Handler.{
  IngressHandler, EdgeRequest, IngressAssignment, status_ok, edge_token, limit_key, assignment_for,
  handle_assignment,
}
use anix_ops_sd_wan.Edge.Forwarder.{
  CopyResult, ForwardStats, ForwardError, client_to_egress, egress_to_client,
}
use anix_ops_sd_wan.Edge.Runtime.{
  EgressTarget, Dialed, connected, dial_error, Attempt, IngressRuntime, IngressForwardResult,
  forwarded, no_reachable_egress, try_candidates, handle_connection, dial_failed,
}
use anix_ops_sd_wan.Edge.Ingress.{
  IsBestNode, assignment_given, handled, IsForwarded, forwarded_first,
}

abbrev limiter : WindowLimiter
limiter = record { limit = pos 2; window = pos 10; counters = [] }

limiter_made : new_window_limiter (pos 2) (pos 10) ≡ ok limiter
unfolding new_window_limiter
limiter_made = refl

abbrev burst : List (Text × ℕ)
burst = (str "a", 109) ∷ (str "a", 109) ∷ (str "b", 110) ∷ (str "a", 110) ∷ (str "a", 111) ∷ []

abbrev earlier : List (Text × ℕ)
earlier = (str "a", 100) ∷ []

-- One is left of the window that began at 100; the calls at 110 and 111 begin and fill another.
burst-served : served (run limiter earlier) (str "a") burst ≡ 3
unfolding served run allow current_counter lookup put ◌==◌
burst-served = refl

served-le_example : served (run limiter earlier) (str "a") burst ≤ 2 * 2
served-le_example =
    served-le 2 10 limiter (str "a") earlier burst 105 limiter_made (omega arith) (omega arith)

abbrev heartbeat : Heartbeat
heartbeat = record { id = str "hk"; region = str "asia"; load = pos 5; observed = 100 }

abbrev second_heartbeat : Heartbeat
second_heartbeat = record { id = str "us"; region = str "west"; load = pos 3; observed = 100 }

abbrev tracker : HealthTracker
tracker = record { ttl = pos 30; nodes = (str "hk", heartbeat) ∷ (str "us", second_heartbeat) ∷ [] }

tracker-IsTracker : IsTracker tracker
unfolding ◌==◌
tracker-IsTracker = record { keys = ((refl, tt), (tt, tt)); own = (refl, (refl, tt)) }

abbrev late_heartbeat : Heartbeat
late_heartbeat = record { id = str "us"; region = str "west"; load = pos 9; observed = 120 }

abbrev tracker_later : HealthTracker
tracker_later = record {
  ttl = pos 30;
  nodes = (str "hk", heartbeat) ∷ (str "us", late_heartbeat) ∷ [];
}

late_observed : observe tracker late_heartbeat ≡ ok tracker_later
unfolding observe put ◌==◌
late_observed = refl

abbrev hk_node : Candidate
hk_node = record { id = str "hk"; region = str "asia"; healthy = true; load = pos 5 }

abbrev us_node : Candidate
us_node = record { id = str "us"; region = str "west"; healthy = true; load = pos 3 }

abbrev down_node : Candidate
down_node = record { id = str "jp"; region = str "asia"; healthy = false; load = pos 1 }

abbrev nodes : List Candidate
nodes = hk_node ∷ down_node ∷ us_node ∷ []

pick_us : pick nodes ≡ ok us_node
unfolding pick rank healthy_candidates sort less_text ◌==◌
pick_us = refl

pick_best_example :
    In us_node nodes
    × (us_node.healthy ≡ true)
    × ((d : Candidate) → In d nodes → d.healthy ≡ true → candidate_before d us_node ≡ false)
pick_best_example = pick_best nodes us_node pick_us

abbrev credential : Credential
credential = record { token = str "k"; tenant_id = str "t1"; device_id = str "d1" }

abbrev auth : Authenticator
auth = record { credentials = (str "k", credential) ∷ [] }

abbrev handler : IngressHandler
handler = record { auth = auth; limiter = limiter; tracker = tracker; ttl = 60 }

abbrev post : EdgeRequest
post = record { is_post = true; x_edge_token = []; authorization = str "Bearer k " }

abbrev assigned : IngressAssignment
assigned = record {
  tenant_id = str "t1";
  device_id = str "d1";
  egress_node_id = str "us";
  region = str "west";
  expires_at = 180;
}

post_assigned : (handle_assignment handler post 120).1 ≡ status_ok assigned
unfolding handle_assignment edge_token authenticate limit_key allow current_counter pick rank
    healthy_candidates candidates candidate_of assignment_for sort less_text lookup put has_prefix
    trim_prefix trim_space ◌==◌
post_assigned = refl

assignment_given_example :
    (c : Credential) × (best : Candidate) × (post.is_post ≡ true)
    × (authenticate auth (edge_token post) ≡ some c)
    × ((allow limiter (limit_key c) 120).1 ≡ true)
    × IsBestNode handler 120 best
    × (assigned ≡ assignment_for c best (120 + 60))
assignment_given_example = assignment_given handler post 120 assigned post_assigned

abbrev bare_net : Net
bare_net = record {
  Ip = Text;
  Network = Text;
  parse_ip = λ s. some s;
  parse_cidr = λ s. some s;
  contains = λ n ip. n == ip;
  lower_rune = λ c. c;
}

abbrev out_copy : CopyResult
out_copy = record { direction = client_to_egress; bytes = 10; error = none }

abbrev back_copy : CopyResult
back_copy = record {
  direction = egress_to_client;
  bytes = 20;
  error = some (record { is_closed = true; is_closed_pipe = false; message = [] });
}

-- Every node resolves to itself; the first dial fails and the later ones connect.
abbrev resolve_self : Candidate → Outcome EdgeError EgressTarget
resolve_self c = ok (record { node_id = c.id; region = c.region; address = str "x:1" })

abbrev dial_second : ℕ → EgressTarget → Dialed
dial_second n t = elim n [ ℕ.zero ↦ dial_error (str "refused") | ℕ.suc m ↦ connected m ]

abbrev dial_never : ℕ → EgressTarget → Dialed
dial_never n t = dial_error (str "refused")

abbrev copy_some : ℕ → ForwardStats × Option ForwardError
copy_some n = (record { client_to_egress_bytes = 1; egress_to_client_bytes = 2 }, none)

abbrev runtime : IngressRuntime
runtime = record { auth = auth; limiter = limiter; tracker = tracker; ttl = 60 }

abbrev result : IngressForwardResult
result = record {
  credential = credential;
  assignment = record {
    tenant_id = str "t1";
    device_id = str "d1";
    egress_node_id = str "hk";
    region = str "asia";
    expires_at = 180;
  };
  target = record { node_id = str "hk"; region = str "asia"; address = str "x:1" };
  stats = record { client_to_egress_bytes = 1; egress_to_client_bytes = 2 };
}

forwarded_run :
    handled resolve_self dial_second copy_some runtime (str " k") 120 ≡ forwarded result none
unfolding handle_connection try_candidates authenticate limit_key allow current_counter rank
    healthy_candidates candidates candidate_of assignment_for sort less_text lookup put trim_space
    ◌==◌
forwarded_run = refl

forwarded_first_example :
    IsForwarded resolve_self dial_second copy_some runtime (str " k") 120 result none
forwarded_first_example =
    forwarded_first resolve_self dial_second copy_some runtime (str " k") 120 result none
      forwarded_run

abbrev two_failures : List Attempt
two_failures = dial_failed (str "us") (str "refused") ∷ dial_failed (str "hk") (str "refused") ∷ []

unreachable_run :
    handled resolve_self dial_never copy_some runtime (str "k") 120
    ≡ no_reachable_egress two_failures
unfolding handle_connection try_candidates authenticate limit_key allow current_counter rank
    healthy_candidates candidates candidate_of assignment_for sort less_text lookup put trim_space
    ◌==◌
unreachable_run = refl
