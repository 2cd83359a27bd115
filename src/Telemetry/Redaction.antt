-- ===== src/Telemetry/Redaction.antt =====
-- What the redaction of internal/telemetry/telemetry.go keeps and what it hides.
use anix_ops_sd_wan.Base.{
  ℕ, Text, ◌==◌, eq_iff, true, ◌≡◌, refl, inl, inr, Option, none, some, [], ◌∷◌, arith,
  if◌then◌else◌, Bool-cases, Option-cases, In, In-of_map,
}
use anix_ops_sd_wan.Base.Sorting.{All, All-In}
use anix_ops_sd_wan.Base.Table.{Table, lookup, put, lookup-put, IsMap, Fresh-lookup}
use anix_ops_sd_wan.Net.{Net}
use anix_ops_sd_wan.Telemetry.{
  LogRecord, Report, redacted, sensitive_key, redact_fields, sanitize_log, sanitized,
}

module _ (net : Net) where
  abbrev pub shown : Text → Option Text → Option Text
  shown key none = none
  shown key (some value) = some (if sensitive_key net key then redacted else value)

  abbrev or_else : Option Text → Option Text → Option Text
  or_else none o = o
  or_else (some v) o = some v

  lookup-redact_fields :
      (done fields : Table Text) (key : Text)
      → IsMap fields
      → lookup key (redact_fields net done fields)
        ≡ or_else (shown key (lookup key fields)) (lookup key done)
  unfolding redact_fields lookup
  lookup-redact_fields done [] key h = refl
  lookup-redact_fields done ((k, value) ∷ rest) key h =
      let shows = if sensitive_key net k then redacted else value in
      let below = lookup-redact_fields (put k shows done) rest key h.1 in
      elim (Bool-cases (k == key)) [
        | inl e ↦
            let same : k ≡ key = (eq_iff k key).0 e in
            let absent : lookup key rest ≡ none = rw (← same) (Fresh-lookup k rest h.0) in
            ground (arith, below, absent, same, lookup-put k key shows done)
        | inr e ↦ ground (arith, below, lookup-put k key shows done)
      ]

  -- Where the fields of a log have different names, the sanitized log has the same fields, and each
  -- field keeps its value, except that a field whose name, in lower case, contains one of the five
  -- sensitive words is "[redacted]".
  pub lookup-sanitize_log :
      (log : LogRecord) (key : Text)
      → IsMap log.fields
      → lookup key (sanitize_log net log).fields ≡ shown key (lookup key log.fields)
  unfolding sanitize_log lookup
  lookup-sanitize_log log key h = ground (arith, lookup-redact_fields [] log.fields key h)

  -- In a sanitized report, where the fields of each log of the report have different names (as the
  -- keys of a map do), every field with a sensitive name has the value "[redacted]".
  pub sanitized_hides :
      (r : Report) (clock : ℕ) (log : LogRecord) (key value : Text)
      → All (λ original. IsMap original.fields) r.logs
      → In log (sanitized net r clock).logs
      → sensitive_key net key ≡ true
      → lookup key log.fields ≡ some value
      → value ≡ redacted
  unfolding sanitized
  sanitized_hides r clock log key value maps m s e =
      let (original, o, same) = In-of_map (sanitize_log net) r.logs log m in
      let keys = All-In (λ original. IsMap original.fields) r.logs original maps o in
      let shows = lookup-sanitize_log original key keys in
      elim (Option-cases (lookup key original.fields)) [
        | inl none_there ↦ absurd (ground (arith, shows, same, e, none_there))
        | inr (v, there) ↦ ground (arith, shows, same, e, there, s)
      ]
