-- ===== src/Transport/Choice.antt =====
-- What the selector of internal/transport/selector.go chooses.
use anix_ops_sd_wan.Base.{
  Text, ◌==◌, Float64, is_at_least_half, true, false, ◌≡◌, refl, ◌⊎◌, inl, inr, some, List, [], ◌∷◌,
  arith, ok, Bool-cases, Option-cases, Outcome-cases, In,
}
use anix_ops_sd_wan.Base.Sorting.{All}
use anix_ops_sd_wan.Base.Table.{Table, lookup}
use anix_ops_sd_wan.Transport.{
  Protocol, Signals, Selection, wire_guard, hysteria, reality, tuic, known_protocol, fallbacks_of,
  selection, is_proven, first_proven, apply_handshake_fallback, link_selection, select,
  validate_signals, fallback_reason,
}

known_each :
    (known_protocol wire_guard ≡ true)
    × (known_protocol hysteria ≡ true)
    × (known_protocol reality ≡ true)
    × (known_protocol tuic ≡ true)
unfolding known_protocol ◌==◌
known_each = (refl, refl, refl, refl)

fallbacks-known : (p : Protocol) → All (λ q. known_protocol q ≡ true) (fallbacks_of p)
unfolding fallbacks_of
fallbacks-known p = ground (arith, known_each)

module _ (percent : Float64 → Text) where
  first_proven-cases :
      (chosen : Selection) (rate : Float64) (rates : Table Float64) (ps : List Protocol)
      → ((p : Protocol) × (reason : Text) × In p ps
          × (is_proven (lookup p rates) ≡ true)
          × (first_proven percent chosen rate rates ps ≡ selection p reason))
        ⊎ (All (λ p. is_proven (lookup p rates) ≡ false) ps
            × (first_proven percent chosen rate rates ps ≡ chosen))
  unfolding first_proven
  first_proven-cases chosen rate rates [] = inr (tt, refl)
  first_proven-cases chosen rate rates (p ∷ ps) = elim (Bool-cases (is_proven (lookup p rates))) [
    | inl e ↦ inl (p, fallback_reason percent chosen rate p, inl refl, e, rw e refl)
    | inr e ↦ elim (first_proven-cases chosen rate rates ps) [
      | inl (q, reason, m, good, eq) ↦ inl (q, reason, inr m, good, rw e eq)
      | inr (none_good, eq) ↦ inr ((e, none_good), rw e eq)
    ]
  ]

  -- The protocol of the link fails in less than half of the handshakes that are known of it.
  abbrev pub IsFailing : Signals → Protocol → Type 0
  IsFailing s p =
      (rate : Float64) × (lookup p s.handshake_success ≡ some rate)
      × (is_at_least_half rate ≡ false)

  -- The protocol that the selector takes, seen from the one that suits the link: that one where it
  -- is not failing, else a proven fallback of it, else that one for want of a proven fallback.
  pub data IsChosen (s : Signals) (primary : Protocol) : Protocol → Type 0 where
    first_choice : (IsFailing s primary → ⊥) → IsChosen s primary primary
    replaced :
        {p : Protocol}
        → IsFailing s primary
        → In p (fallbacks_of primary)
        → is_proven (lookup p s.handshake_success) ≡ true
        → IsChosen s primary p
    kept :
        IsFailing s primary
        → All (λ q. is_proven (lookup q s.handshake_success) ≡ false) (fallbacks_of primary)
        → IsChosen s primary primary

  link-fallbacks :
      (s : Signals)
      → (link_selection percent s).fallbacks ≡ fallbacks_of (link_selection percent s).protocol
  unfolding link_selection selection
  link-fallbacks s = ground arith

  -- For valid signals the selector takes the protocol that suits the link, unless fewer than half
  -- of its known handshakes succeed: then it takes a fallback of it of which at least half are
  -- known to succeed, and stays with the protocol of the link only if there is no such fallback.
  pub select-IsChosen :
      (s : Signals)
      → validate_signals s ≡ ok tt
      → IsChosen s (link_selection percent s).protocol (select percent s).protocol
  unfolding select apply_handshake_fallback selection
  select-IsChosen s valid =
      let first = link_selection percent s in
      let rates = s.handshake_success in
      elim (Option-cases (lookup first.protocol rates)) [
        | inl e ↦ rw (valid, e) (first_choice (λ f. ground (arith, e, f.1)))
        | inr (rate, e) ↦ elim (Bool-cases (is_at_least_half rate)) [
          | inl good ↦ rw (valid, e, good) (first_choice (λ f. ground (arith, e, good, f.1, f.2)))
          | inr bad ↦ elim (first_proven-cases first rate rates first.fallbacks) [
            | inl (p, reason, m, proven, eq) ↦
                rw (valid, e, bad, eq) (replaced (rate, e, bad) (rw (← link-fallbacks s) m) proven)
            | inr (unproven, eq) ↦
                rw (valid, e, bad, eq) (kept (rate, e, bad) (rw (← link-fallbacks s) unproven))
          ]
        ]
      ]

  link-known : (s : Signals) → known_protocol (link_selection percent s).protocol ≡ true
  unfolding link_selection selection
  link-known s = ground (arith, known_each)

  first_proven-known :
      (chosen : Selection) (rate : Float64) (rates : Table Float64) (ps : List Protocol)
      → known_protocol chosen.protocol ≡ true
      → All (λ p. known_protocol p ≡ true) ps
      → known_protocol (first_proven percent chosen rate rates ps).protocol ≡ true
  unfolding first_proven selection
  first_proven-known chosen rate rates [] h hs = h
  first_proven-known chosen rate rates (p ∷ ps) h hs =
      ground (arith, hs.0, first_proven-known chosen rate rates ps h hs.1)

  -- The protocol taken is a known one, whatever the signals are, invalid ones included.
  pub select-known : (s : Signals) → known_protocol (select percent s).protocol ≡ true
  unfolding select apply_handshake_fallback selection
  select-known s =
      let first = link_selection percent s in
      let rates = s.handshake_success in
      let known = link-known s in
      let others : All (λ p. known_protocol p ≡ true) first.fallbacks =
        rw (link-fallbacks s) (fallbacks-known first.protocol) in
      elim (Outcome-cases (validate_signals s)) [
        | inr (e, bad) ↦ ground (arith, bad, known_each)
        | inl (u, valid) ↦ elim (Option-cases (lookup first.protocol rates)) [
          | inl e ↦ rw (valid, e) known
          | inr (rate, e) ↦
              let next = first_proven-known first rate rates first.fallbacks known others in
              ground (arith, valid, e, known, next)
        ]
      ]
