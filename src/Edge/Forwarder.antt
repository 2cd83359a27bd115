-- ===== src/Edge/Forwarder.antt =====
-- internal/edge/forwarder.go: what the two copies of a connection add up to. The copies run in
-- goroutines; their results come over one channel in either order, and this order is the argument.
use anix_ops_sd_wan.Base.{
  ℕ, Text, str, ◌==◌, contains, Bool, true, ◌||◌, ◌≡◌, refl, ◌↔◌, ◌⊎◌, Option, none, some, arith,
  if◌then◌else◌,
}
use anix_ops_sd_wan.Net.{Net, to_lower}

-- An error of a connection: whether it is net.ErrClosed, whether it is io.ErrClosedPipe, its text.
pub record NetError : Type 0 where
  pub is_closed : Bool
  pub is_closed_pipe : Bool
  pub message : Text

pub record CopyResult : Type 0 where
  pub direction : Text
  pub bytes : ℕ
  pub error : Option NetError

pub record ForwardStats : Type 0 where
  pub client_to_egress_bytes : ℕ
  pub egress_to_client_bytes : ℕ

pub data ForwardError : Type 0 where
  client_required egress_required : ForwardError
  copy_error : NetError → ForwardError
  context_error : Text → ForwardError

-- ctx.Err() after the copies.
pub data ContextState : Type 0 where
  live canceled : ContextState
  failed : Text → ContextState

abbrev pub client_to_egress : Text
client_to_egress = str "client_to_egress"

abbrev pub egress_to_client : Text
egress_to_client = str "egress_to_client"

unfoldable pub add_result : ForwardStats → CopyResult → ForwardStats
add_result stats r =
    if r.direction == client_to_egress
    then record stats { client_to_egress_bytes = r.bytes }
    else if r.direction == egress_to_client
    then record stats { egress_to_client_bytes = r.bytes }
    else stats

add_result_out :
    (stats : ForwardStats) (r : CopyResult)
    → r.direction ≡ client_to_egress
    → add_result stats r ≡ record stats { client_to_egress_bytes = r.bytes }
unfolding add_result ◌==◌
add_result_out stats r p = rw p

add_result_back :
    (stats : ForwardStats) (r : CopyResult)
    → r.direction ≡ egress_to_client
    → add_result stats r ≡ record stats { egress_to_client_bytes = r.bytes }
unfolding add_result ◌==◌
add_result_back stats r p = rw p

module _ (net : Net) where
  unfoldable pub expected_close_error : Option NetError → Bool
  expected_close_error none = true
  expected_close_error (some e) =
      e.is_closed
      || e.is_closed_pipe
      || contains (to_lower net e.message) (str "closed pipe")
      || contains (to_lower net e.message) (str "use of closed network connection")

  abbrev pub first_error : Option NetError → Option NetError → Option NetError
  first_error (some e) latest = some e
  first_error none latest = if expected_close_error latest then none else latest

  finish : ForwardStats → Option NetError → ContextState → ForwardStats × Option ForwardError
  finish stats (some e) context = (stats, some (copy_error e))
  finish stats none (failed reason) = (stats, some (context_error reason))
  finish stats none live = (stats, none)
  finish stats none canceled = (stats, none)

  -- The two results in the order in which they arrive; each connection is closed after the first.
  unfoldable pub forward_bidirectional :
      CopyResult → CopyResult → ContextState → ForwardStats × Option ForwardError
  unfolding finish
  forward_bidirectional first second context =
      let none_yet : ForwardStats = record {
        client_to_egress_bytes = 0;
        egress_to_client_bytes = 0;
      } in
      finish (add_result (add_result none_yet first) second)
        (first_error (first_error none first.error) second.error) context

  none_expected : expected_close_error none ≡ true
  unfolding expected_close_error
  none_expected = refl

  stats-forward :
      (first second : CopyResult) (context : ContextState)
      → (forward_bidirectional first second context).0
        ≡ add_result
            (add_result (record { client_to_egress_bytes = 0; egress_to_client_bytes = 0 }) first)
            second
  unfolding forward_bidirectional
  stats-forward first second context = ground arith

  no_error_iff :
      (first second : CopyResult) (context : ContextState)
      → ((forward_bidirectional first second context).1 ≡ none) ↔ (
          (expected_close_error first.error ≡ true)
          × (expected_close_error second.error ≡ true)
          × ((context ≡ live) ⊎ (context ≡ canceled)))
  unfolding forward_bidirectional
  no_error_iff first second context = (ground (arith, none_expected), ground (arith, none_expected))

  -- Whichever of the two copies ends first, the statistics hold the bytes of each direction; there
  -- is no error exactly where each copy ended without one or with one that a closed connection
  -- explains, and the context has not failed otherwise than by a cancel.
  pub forward_any_order :
      (out back : CopyResult) (context : ContextState)
      → out.direction ≡ client_to_egress
      → back.direction ≡ egress_to_client
      → ((forward_bidirectional out back context).0
          ≡ record { client_to_egress_bytes = out.bytes; egress_to_client_bytes = back.bytes })
        × ((forward_bidirectional back out context).0
            ≡ record { client_to_egress_bytes = out.bytes; egress_to_client_bytes = back.bytes })
        × (((forward_bidirectional out back context).1 ≡ none) ↔ (
            (expected_close_error out.error ≡ true)
            × (expected_close_error back.error ≡ true)
            × ((context ≡ live) ⊎ (context ≡ canceled))))
        × (((forward_bidirectional back out context).1 ≡ none) ↔ (
            (expected_close_error out.error ≡ true)
            × (expected_close_error back.error ≡ true)
            × ((context ≡ live) ⊎ (context ≡ canceled))))
  forward_any_order out back context p q = (
    rw (stats-forward out back context, add_result_out _ out p, add_result_back _ back q),
    rw (stats-forward back out context, add_result_back _ back q, add_result_out _ out p),
    no_error_iff out back context,
    (let (to, from) = no_error_iff back out context in
        ((λ e. let (b, o, c) = to e in (o, b, c)), (λ (o, b, c). from (b, o, c)))),
  )
