-- ===== src/Telemetry/Idempotence.antt =====
-- A report that Sanitized (internal/telemetry/telemetry.go) has seen is left as it is the next time.
use mathlib.Core.List.{append-nil, append_assoc}
use anix_ops_sd_wan.Base.{
  ℕ, Text, Float64, ◌≡◌, ◌≢◌, refl, sym, ◌∙◌, List, [], ◌∷◌, ◌++◌, map, arith, if◌then◌else◌,
}
use anix_ops_sd_wan.Base.Sorting.{All}
use anix_ops_sd_wan.Base.Table.{
  Table, put-Fresh, IsMap, Fresh, AreApart, AreApart-append, AreApart-nil,
}
use anix_ops_sd_wan.Net.{Net}
use anix_ops_sd_wan.Telemetry.{
  LogRecord, Report, redacted, copy_metrics, sensitive_key, redact_fields, sanitize_log, sanitized,
}

copy_metrics-append :
    (done m : Table Float64) → IsMap m → AreApart m done → copy_metrics done m ≡ done ++ m
unfolding copy_metrics
copy_metrics-append done [] h a = sym (append-nil done)
copy_metrics-append done ((k, v) ∷ m) h a =
    let end = put-Fresh k v done a.0 in
    let rest =
      copy_metrics-append (done ++ ((k, v) ∷ [])) m h.1 (AreApart-append m done k v h.0 a.1) in
    rw end (rest ∙ append_assoc done ((k, v) ∷ []) m)

-- The metrics and the fields of each log are maps: no key stands twice.
abbrev pub HasMaps : Report → Type 0
HasMaps r = IsMap r.metrics × All (λ log. IsMap log.fields) r.logs

module _ (net : Net) where
  redact_each : Table Text → Table Text
  redact_each [] = []
  redact_each ((k, v) ∷ m) = (k, (if sensitive_key net k then redacted else v)) ∷ redact_each m

  redact_fields-append :
      (done m : Table Text)
      → IsMap m
      → AreApart m done
      → redact_fields net done m ≡ done ++ redact_each m
  unfolding redact_fields redact_each
  redact_fields-append done [] h a = sym (append-nil done)
  redact_fields-append done ((k, v) ∷ m) h a =
      let shows = if sensitive_key net k then redacted else v in
      let end = put-Fresh k shows done a.0 in
      let rest =
        redact_fields-append (done ++ ((k, shows) ∷ [])) m h.1
          (AreApart-append m done k shows h.0 a.1) in
      rw end (rest ∙ append_assoc done ((k, shows) ∷ []) (redact_each m))

  Fresh-redact_each : (j : Text) (m : Table Text) → Fresh j m → Fresh j (redact_each m)
  unfolding redact_each
  Fresh-redact_each j [] f = tt
  Fresh-redact_each j ((k, v) ∷ m) f = (f.0, Fresh-redact_each j m f.1)

  redact_each-IsMap : (m : Table Text) → IsMap m → IsMap (redact_each m)
  unfolding redact_each
  redact_each-IsMap [] h = tt
  redact_each-IsMap ((k, v) ∷ m) h = (Fresh-redact_each k m h.0, redact_each-IsMap m h.1)

  redact_each_idem : (m : Table Text) → redact_each (redact_each m) ≡ redact_each m
  unfolding redact_each
  redact_each_idem [] = refl
  redact_each_idem ((k, v) ∷ m) = ground (arith, redact_each_idem m)

  sanitize_log_idem :
      (log : LogRecord)
      → IsMap log.fields
      → sanitize_log net (sanitize_log net log) ≡ sanitize_log net log
  unfolding sanitize_log
  sanitize_log_idem log h =
      let first = redact_fields-append [] log.fields h (AreApart-nil log.fields) in
      let again =
        redact_fields-append [] (redact_each log.fields) (redact_each-IsMap log.fields h)
          (AreApart-nil (redact_each log.fields)) in
      ground (arith, first, again, redact_each_idem log.fields)

  sanitize_logs_idem :
      (logs : List LogRecord)
      → All (λ log. IsMap log.fields) logs
      → map (sanitize_log net) (map (sanitize_log net) logs) ≡ map (sanitize_log net) logs
  sanitize_logs_idem [] h = refl
  sanitize_logs_idem (log ∷ logs) h = cc (sanitize_log_idem log h.0, sanitize_logs_idem logs h.1)

  -- A second call keeps a sanitized report, whatever its clock reads, if the first one's was set.
  pub sanitized_idem :
      (r : Report) (clock later : ℕ)
      → HasMaps r
      → clock ≢ 0
      → sanitized net (sanitized net r clock) later ≡ sanitized net r clock
  unfolding sanitized
  sanitized_idem r clock later maps set =
      let metrics = copy_metrics-append [] r.metrics maps.0 (AreApart-nil r.metrics) in
      ground (arith, metrics, sanitize_logs_idem r.logs maps.1, set)
