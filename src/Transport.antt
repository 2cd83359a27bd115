-- ===== src/Transport.antt =====
-- internal/transport: the protocols, the link signals with their validation (protocol.go), the
-- signals of a probe (probe.go) and the choice of a protocol (selector.go).
pub mod Choice
pub mod Switching
pub mod Lifecycle
mod Tests
use anix_ops_sd_wan.Base.{
  ℕ, ◌+◌, ◌*◌, ◌/◌, ℤ, pos, ltbℤ, pos_part, Text, str, ◌==◌, has_prefix, leb, ltb, eqb, length,
  Float64, is_negative, is_above_one, is_at_least_half, Bool, true, false, not, ◌&&◌, ◌||◌, Option,
  none, some, List, [], ◌∷◌, ◌++◌, if◌then◌else◌, Outcome, ok, err, ◌>>=◌, ◌>>◌, reject,
}
use anix_ops_sd_wan.Base.Table.{Table, lookup}

-- Protocol and LinkClass are strings in the source.
abbrev pub Protocol : Type 0
Protocol = Text

abbrev pub wire_guard : Protocol
wire_guard = str "native-wireguard"

abbrev pub hysteria : Protocol
hysteria = str "hysteria2"

abbrev pub reality : Protocol
reality = str "reality"

abbrev pub tuic : Protocol
tuic = str "tuic"

unfoldable pub known_protocol : Protocol → Bool
known_protocol p = p == wire_guard || p == hysteria || p == reality || p == tuic

abbrev pub link_unknown : Text
link_unknown = str "unknown"

abbrev pub link_dedicated : Text
link_dedicated = str "dedicated"

abbrev pub link_public : Text
link_public = str "public"

abbrev pub link_mobile : Text
link_mobile = str "mobile"

pub record Signals : Type 0 where
  pub link_class : Text
  pub udp_available : Bool
  pub qos_risk : Bool
  pub dpi_risk : Bool
  pub rtt_millis : ℤ
  pub packet_loss_permil : ℤ
  pub jitter_millis : ℤ
  pub handshake_success : Table Float64

pub data TransportError : Type 0 where
  link_class_required rtt_negative loss_negative jitter_negative : TransportError
  unknown_handshake rate_out_of_range : Protocol → TransportError
  unknown_active : Protocol → TransportError
  cooldown_negative apply_required : TransportError

-- for protocol, rate := range s.HandshakeSuccess
validate_rates : Table Float64 → Outcome TransportError (Unit {0})
validate_rates [] = ok tt
validate_rates ((protocol, rate) ∷ rest) =
    let checked = validate_rates rest in
    do
      reject (not (known_protocol protocol)) (unknown_handshake protocol)
      reject (is_negative rate || is_above_one rate) (rate_out_of_range protocol)
      checked

unfoldable pub validate_signals : Signals → Outcome TransportError (Unit {0})
unfolding validate_rates
validate_signals s = do
  reject (s.link_class == []) link_class_required
  reject (ltbℤ s.rtt_millis (pos 0)) rtt_negative
  reject (ltbℤ s.packet_loss_permil (pos 0)) loss_negative
  reject (ltbℤ s.jitter_millis (pos 0)) jitter_negative
  validate_rates s.handshake_success

pub record Selection : Type 0 where
  pub protocol : Protocol
  pub reason : Text
  pub fallbacks : List Protocol

unfoldable pub fallbacks_of : Protocol → List Protocol
fallbacks_of p =
    if p == wire_guard
    then hysteria ∷ reality ∷ tuic ∷ []
    else if p == hysteria
    then reality ∷ tuic ∷ wire_guard ∷ []
    else if p == reality
    then hysteria ∷ tuic ∷ wire_guard ∷ []
    else if p == tuic
    then hysteria ∷ reality ∷ wire_guard ∷ []
    else hysteria ∷ reality ∷ tuic ∷ wire_guard ∷ []

unfoldable pub selection : Protocol → Text → Selection
selection p reason = record { protocol = p; reason = reason; fallbacks = fallbacks_of p }

-- ok && rate >= MinHandshakeSuccessRate
unfoldable pub is_proven : Option Float64 → Bool
is_proven none = false
is_proven (some rate) = is_at_least_half rate

-- `percent` is what fmt writes for rate*100 with %.0f.
module _ (percent : Float64 → Text) where
  fallback_reason : Selection → Float64 → Protocol → Text
  fallback_reason selected rate fallback =
      selected.reason
      ++ str "; "
      ++ selected.protocol
      ++ str " handshake success "
      ++ percent rate
      ++ str "% below threshold, fallback to "
      ++ fallback

  -- for _, fallback := range selected.Fallbacks
  first_proven : Selection → Float64 → Table Float64 → List Protocol → Selection
  first_proven selected rate rates [] = selected
  first_proven selected rate rates (fallback ∷ rest) =
      let later = first_proven selected rate rates rest in
      if is_proven (lookup fallback rates)
      then selection fallback (fallback_reason selected rate fallback)
      else later

  fall_back : Selection → Table Float64 → Option Float64 → Selection
  fall_back selected rates none = selected
  fall_back selected rates (some rate) =
      if is_at_least_half rate
      then selected
      else first_proven selected rate rates selected.fallbacks

  unfoldable pub apply_handshake_fallback : Selection → Signals → Selection
  unfolding first_proven fall_back fallback_reason
  apply_handshake_fallback selected signals =
      fall_back selected signals.handshake_success
        (lookup selected.protocol signals.handshake_success)

  -- The choice by the link, before the handshakes are looked at.
  unfoldable pub link_selection : Signals → Selection
  link_selection signals =
      if not signals.udp_available
      then selection reality (str "udp unavailable; choose tls-shaped fallback")
      else if signals.dpi_risk || signals.qos_risk
      then selection reality (str "dpi or qos risk detected")
      else if signals.link_class == link_dedicated
      then selection wire_guard (str "dedicated or trusted link detected")
      else if signals.link_class == link_mobile
      then selection hysteria (str "mobile link detected; prefer quic transport")
      else if signals.link_class == link_public || signals.link_class == link_unknown
      then selection hysteria (str "public link detected; prefer primary cross-border transport")
      else selection hysteria (str "unclassified link; use primary cross-border transport")

  select_valid : Signals → Outcome TransportError (Unit {0}) → Selection
  select_valid signals (err e) =
      selection hysteria (str "invalid link signals; use primary cross-border transport")
  select_valid signals (ok u) = apply_handshake_fallback (link_selection signals) signals

  unfoldable pub select : Signals → Selection
  unfolding select_valid
  select signals = select_valid signals (validate_signals signals)

pub record ProbeResult : Type 0 where
  pub network : Text
  pub success : Bool
  pub rtt_millis : ℕ

-- The counters of the loop of SignalsFromProbeResults.
pub record Tally : Type 0 where
  pub failures : ℕ
  pub successes : ℕ
  pub total_rtt : ℕ
  pub udp : Bool

tally : Tally → List ProbeResult → Tally
tally t [] = t
tally t (r ∷ rs) =
    tally
      (if r.success
        then record {
          failures = t.failures;
          successes = t.successes + 1;
          total_rtt = t.total_rtt + r.rtt_millis;
          udp = t.udp || has_prefix r.network (str "udp");
        }
        else record t { failures = t.failures + 1 })
      rs

-- A probe's round trip is not negative, and n / 0 is 0 here as the signal is in the source.
unfoldable pub signals_from_probe_results : Text → List ProbeResult → Signals
unfolding tally
signals_from_probe_results link_class results =
    let class = if link_class == [] then link_unknown else link_class in
    let t = tally (record { failures = 0; successes = 0; total_rtt = 0; udp = false }) results in
    let rtt = if ltb 0 t.successes then t.total_rtt / t.successes else 0 in
    let loss = if eqb (length results) 0 then 0 else t.failures * 1000 / length results in
    record {
      link_class = class;
      udp_available = t.udp;
      qos_risk = not (eqb (length results) 0) && (leb 100 loss || leb 250 rtt);
      dpi_risk = false;
      rtt_millis = pos rtt;
      packet_loss_permil = pos loss;
      jitter_millis = pos 0;
      handshake_success = [];
    }
