-- ===== src/Edge/Handler.antt =====
-- internal/edge/handler.go: the assignment handler. Its three components are parts of its state; the
-- clock is an argument, and the response is the status with what its body is made of.
use anix_ops_sd_wan.Base.{
  ℕ, ◌+◌, Text, str, ◌==◌, has_prefix, trim_prefix, trim_space, Bool, Option, none, some, [], ◌++◌,
  if◌then◌else◌, Outcome, ok, err,
}
use anix_ops_sd_wan.Edge.{
  Credential, Authenticator, WindowLimiter, HealthTracker, Candidate, EdgeError, authenticate,
  allow, candidates, pick,
}

pub record IngressAssignment : Type 0 where
  pub tenant_id : Text
  pub device_id : Text
  pub egress_node_id : Text
  pub region : Text
  pub expires_at : ℕ

pub record IngressHandler : Type 0 where
  pub auth : Authenticator
  pub limiter : WindowLimiter
  pub tracker : HealthTracker
  -- nanoseconds
  pub ttl : ℕ

-- NewIngressHandler with its three components: the lifetime is time.Minute.
unfoldable pub new_ingress_handler : Authenticator → WindowLimiter → HealthTracker → IngressHandler
new_ingress_handler auth limiter tracker = record {
  auth = auth;
  limiter = limiter;
  tracker = tracker;
  ttl = 60_000_000_000;
}

-- What the handler reads of a request.
pub record EdgeRequest : Type 0 where
  pub is_post : Bool
  pub x_edge_token : Text
  pub authorization : Text

unfoldable pub edge_token : EdgeRequest → Text
edge_token r =
    let token = trim_space r.x_edge_token in
    if token == []
    then (if has_prefix r.authorization (str "Bearer ")
        then trim_space (trim_prefix r.authorization (str "Bearer "))
        else [])
    else token

pub data Response : Type 0 where
  method_not_allowed unauthorized too_many_requests : Response
  service_unavailable : EdgeError → Response
  status_ok : IngressAssignment → Response

-- credential.TenantID + ":" + credential.DeviceID
unfoldable pub limit_key : Credential → Text
limit_key c = c.tenant_id ++ (str ":" ++ c.device_id)

unfoldable pub assignment_for : Credential → Candidate → ℕ → IngressAssignment
assignment_for c selected expires_at = record {
  tenant_id = c.tenant_id;
  device_id = c.device_id;
  egress_node_id = selected.id;
  region = selected.region;
  expires_at = expires_at;
}

respond_picked : IngressHandler → Credential → ℕ → Outcome EdgeError Candidate → Response
respond_picked h c now (err e) = service_unavailable e
respond_picked h c now (ok selected) = status_ok (assignment_for c selected (now + h.ttl))

respond_known : IngressHandler → ℕ → Option Credential → IngressHandler × Response
respond_known h now none = (h, unauthorized)
respond_known h now (some c) =
    let (limiter, granted) = allow h.limiter (limit_key c) now in
    let h' = record h { limiter = limiter } in
    (
      h',
      (if granted
          then respond_picked h c now (pick (candidates h.tracker now))
          else too_many_requests),
    )

-- The handler after a request that comes at this time, and its response.
unfoldable pub handle_assignment : IngressHandler → EdgeRequest → ℕ → IngressHandler × Response
unfolding respond_known respond_picked
handle_assignment h r now =
    if r.is_post
    then respond_known h now (authenticate h.auth (edge_token r))
    else (h, method_not_allowed)
