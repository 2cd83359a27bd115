-- ===== src/Telemetry/Tests.antt =====
-- Runs of internal/telemetry, and the theorems at concrete inputs.
use anix_ops_sd_wan.Base.{str, ◌==◌, contains, has_prefix, ◌≡◌, refl, [], ◌∷◌, inl, err, trim_space}
use anix_ops_sd_wan.Base.Table.{lookup, put}
use anix_ops_sd_wan.Net.{to_lower}
use anix_ops_sd_wan.Net.Samples.{plain_net}
use anix_ops_sd_wan.Telemetry.{
  LogRecord, Report, redacted, sensitive_key, redact_fields, sanitize_log, sanitized,
  validate_report, metric_negative,
}
use anix_ops_sd_wan.Telemetry.Redaction.{sanitized_hides}

abbrev login : LogRecord
login = record {
  level = str "info";
  message = str "login";
  fields = (str "user", str "ann") ∷ (str "API_Token", str "t-1") ∷ [];
}

abbrev login_hidden : LogRecord
login_hidden = record {
  level = str "info";
  message = str "login";
  fields = (str "user", str "ann") ∷ (str "API_Token", str "[redacted]") ∷ [];
}

abbrev agent_report : Report
agent_report = record {
  tenant_id = str "t1";
  subject_id = str "a1";
  subject_kind = str "agent";
  timestamp = 0;
  metrics = (str "rtt", 0x4039000000000000) ∷ [];
  logs = login ∷ [];
}

login-sanitize : sanitize_log plain_net login ≡ login_hidden
unfolding sanitize_log redact_fields sensitive_key to_lower contains has_prefix put ◌==◌
login-sanitize = refl

-- -1 as a float64
negative_metric :
    validate_report (record agent_report { metrics = (str "rtt", 0xBFF0000000000000) ∷ [] })
    ≡ err (metric_negative (str "rtt"))
unfolding validate_report ◌==◌ trim_space
negative_metric = refl

sanitized_hides_example : str "[redacted]" ≡ redacted
sanitized_hides_example =
    sanitized_hides plain_net agent_report 5 login_hidden (str "API_Token") (str "[redacted]")
      (unfold ◌==◌ in (((refl, tt), (tt, tt)), tt))
      (unfold sanitized sanitize_log redact_fields sensitive_key to_lower contains has_prefix put
          ◌==◌ in
        inl refl)
      (unfold sensitive_key to_lower contains has_prefix ◌==◌ in refl) (unfold lookup ◌==◌ in refl)
