-- ===== src/Telemetry.antt =====
-- internal/telemetry/telemetry.go: reports, their validation, and the redaction of log fields.
pub mod Redaction
pub mod Idempotence
mod Tests
use anix_ops_sd_wan.Base.{
  ℕ, Text, str, ◌==◌, is_blank, contains, eqb, Float64, is_negative, Bool, ◌||◌, List, [], ◌∷◌, map,
  if◌then◌else◌, Outcome, ok, err, ◌>>=◌, ◌>>◌, reject,
}
use anix_ops_sd_wan.Base.Table.{Table, put}
use anix_ops_sd_wan.Net.{Net, to_lower}

-- A nil map of fields or metrics, and a nil list of logs, is an empty one.
pub record LogRecord : Type 0 where
  pub level : Text
  pub message : Text
  pub fields : Table Text

pub record Report : Type 0 where
  pub tenant_id : Text
  pub subject_id : Text
  pub subject_kind : Text
  pub timestamp : ℕ
  pub metrics : Table Float64
  pub logs : List LogRecord

pub data TelemetryError : Type 0 where
  tenant_required subject_required kind_required metric_name_required : TelemetryError
  metric_negative : Text → TelemetryError

-- for name, value := range r.Metrics
validate_metrics : Table Float64 → Outcome TelemetryError (Unit {0})
validate_metrics [] = ok tt
validate_metrics ((name, value) ∷ rest) =
    let checked = validate_metrics rest in
    do
      reject (is_blank name) metric_name_required
      reject (is_negative value) (metric_negative name)
      checked

unfoldable pub validate_report : Report → Outcome TelemetryError (Unit {0})
unfolding validate_metrics
validate_report r = do
  reject (is_blank r.tenant_id) tenant_required
  reject (is_blank r.subject_id) subject_required
  reject (r.subject_kind == []) kind_required
  validate_metrics r.metrics

abbrev pub redacted : Text
redacted = str "[redacted]"

-- for key, value := range r.Metrics { clean.Metrics[key] = value }
copy_metrics : Table Float64 → Table Float64 → Table Float64
copy_metrics done [] = done
copy_metrics done ((key, value) ∷ rest) = copy_metrics (put key value done) rest

module _ (net : Net) where
  unfoldable pub sensitive_key : Text → Bool
  sensitive_key key =
      let k = to_lower net key in
      contains k (str "password")
      || contains k (str "token")
      || contains k (str "secret")
      || contains k (str "private_key")
      || contains k (str "credential")

  -- for key, value := range log.Fields
  unfoldable pub redact_fields : Table Text → Table Text → Table Text
  redact_fields done [] = done
  redact_fields done ((key, value) ∷ rest) =
      redact_fields (put key (if sensitive_key key then redacted else value) done) rest

  unfoldable pub sanitize_log : LogRecord → LogRecord
  sanitize_log log = record log { fields = redact_fields [] log.fields }

  -- `clock` is time.Now.
  unfoldable pub sanitized : Report → ℕ → Report
  unfolding copy_metrics
  sanitized r clock = record r {
    timestamp = if eqb r.timestamp 0 then clock else r.timestamp;
    metrics = copy_metrics [] r.metrics;
    logs = map sanitize_log r.logs;
  }
