-- ===== src/Agent/Queue.antt =====
-- internal/agent/telemetry_queue.go: the reports that wait in a file, and pushTelemetry of
-- internal/agent/sync.go. The faults of the disk and the answers of the server are arguments; the
-- server may answer differently each time, so it is given the number of the pushes before. All
-- reports of one call that come without a time are given one reading of the clock.
use anix_ops_sd_wan.Base.{
  ℕ, suc, ◌-◌, ℤ, pos, lebℤ, pos_part, Text, ◌==◌, length, drop, Bool, false, Option, none, some,
  List, [], ◌∷◌, ◌++◌, if◌then◌else◌, Outcome, ok, err, ◌>>=◌, ◌>>◌, reject,
}
use anix_ops_sd_wan.Net.{Net}
use anix_ops_sd_wan.Telemetry.{Report, TelemetryError, validate_report, sanitized}

pub data QueueError : Type 0 where
  path_required max_not_positive : QueueError
  open_failed remove_failed write_failed : QueueError
  invalid_report : TelemetryError → QueueError
  push_failed : Text → QueueError
  push_and_save_failed : Text → QueueError → QueueError
  load_failed clear_failed : QueueError → QueueError

-- The queue with what is in its file; `none` is an absent file.
pub record FileTelemetryQueue : Type 0 where
  pub max_reports : ℕ
  pub file : Option (List Report)

unfoldable pub new_bounded_file_telemetry_queue :
    Text → ℤ → Option (List Report) → Outcome QueueError FileTelemetryQueue
new_bounded_file_telemetry_queue path max_reports file = do
  reject (path == []) path_required
  reject (lebℤ max_reports (pos 0)) max_not_positive
  ok (record { max_reports = pos_part max_reports; file = file })

unfoldable pub checked : Outcome TelemetryError (Unit {0}) → Outcome QueueError (Unit {0})
checked (err e) = err (invalid_report e)
checked (ok u) = ok tt

-- What the file holds where there is none.
abbrev pub file_reports : Option (List Report) → List Report
file_reports none = []
file_reports (some reports) = reports

-- The last `bound` reports.
unfoldable pub newest : ℕ → List Report → List Report
newest bound reports = drop (length reports - bound) reports

unfoldable pub written :
    FileTelemetryQueue
    → Bool
    → Outcome QueueError (List Report)
    → FileTelemetryQueue × Outcome QueueError (Unit {0})
written q fault (err e) = (q, err e)
written q fault (ok clean) =
    if fault
    then (q, err write_failed)
    else (record q { file = some (newest q.max_reports clean) }, ok tt)

module _ (net : Net) where
  -- for _, report := range reports { clean := report.Sanitized(); clean.Validate(); append }
  unfoldable pub clean_all : ℕ → List Report → Outcome QueueError (List Report)
  unfolding checked
  clean_all clock [] = ok []
  clean_all clock (report ∷ reports) = do
    let clean = sanitized net report clock
    checked (validate_report clean)
    rest ← clean_all clock reports
    ok (clean ∷ rest)

  unfoldable pub load : FileTelemetryQueue → Bool → ℕ → Outcome QueueError (List Report)
  load q fault clock = do reject fault open_failed; clean_all clock (file_reports q.file)

  unfoldable pub save :
      FileTelemetryQueue
      → Bool
      → ℕ
      → List Report
      → FileTelemetryQueue × Outcome QueueError (Unit {0})
  unfolding written
  save q fault clock [] =
      if fault then (q, err remove_failed) else (record q { file = none }, ok tt)
  save q fault clock (report ∷ reports) = written q fault (clean_all clock (report ∷ reports))

-- What the server has accepted, what is left of the list, and the error that stopped the loop.
pub record Pushed : Type 0 where
  pub sent : List Report
  pub left : List Report
  pub stop : Option Text

-- for index, queued := range pending { client.PushTelemetry(...) }
unfoldable pub push_all : (ℕ → Report → Option Text) → ℕ → List Report → Pushed
push_all server n [] = record { sent = []; left = []; stop = none }
push_all server n (report ∷ reports) =
    let rest = push_all server (suc n) reports in
    elim (server n report) [
      | some e ↦ record { sent = []; left = report ∷ reports; stop = some e }
      | none ↦ record rest { sent = report ∷ rest.sent }
    ]

-- The faults of the disk in a call: in the load, in the save after an error, in the clearing.
pub record DiskFaults : Type 0 where
  pub load : Bool
  pub save : Bool

abbrev pub no_faults : DiskFaults
no_faults = record { load = false; save = false }

unfoldable pub save_error :
    Text
    → FileTelemetryQueue × Outcome QueueError (Unit {0})
    → FileTelemetryQueue × Outcome QueueError (Unit {0})
save_error e (q, ok u) = (q, err (push_failed e))
save_error e (q, err why) = (q, err (push_and_save_failed e why))

unfoldable pub cleared :
    FileTelemetryQueue × Outcome QueueError (Unit {0})
    → FileTelemetryQueue × Outcome QueueError (Unit {0})
cleared (q, ok u) = (q, ok tt)
cleared (q, err why) = (q, err (clear_failed why))

module _ (net : Net) (server : ℕ → Report → Option Text) where
  -- After the pushes: the rest is saved where one failed, and the file is removed where none did.
  unfoldable pub keep_rest :
      FileTelemetryQueue
      → DiskFaults
      → ℕ
      → List Report
      → Option Text
      → FileTelemetryQueue × Outcome QueueError (Unit {0})
  keep_rest q faults clock left (some e) = save_error e (save net q faults.save clock left)
  keep_rest q faults clock left none = cleared (save net q faults.save clock [])

  unfoldable pub push_loaded :
      FileTelemetryQueue
      → DiskFaults
      → ℕ
      → Report
      → Outcome QueueError (List Report)
      → (FileTelemetryQueue × Outcome QueueError (Unit {0})) × List Report
  push_loaded q faults clock report (err e) = ((q, err (load_failed e)), [])
  push_loaded q faults clock report (ok queued) =
      let pushed = push_all server 0 (queued ++ (report ∷ [])) in
      (keep_rest q faults clock pushed.left pushed.stop, pushed.sent)

  -- pushTelemetry with a queue: the queue and the result, and what the server accepted.
  unfoldable pub push_telemetry :
      FileTelemetryQueue
      → DiskFaults
      → ℕ
      → Report
      → (FileTelemetryQueue × Outcome QueueError (Unit {0})) × List Report
  unfolding save_error cleared keep_rest push_loaded
  push_telemetry q faults clock report =
      push_loaded q faults clock (sanitized net report clock) (load net q faults.load clock)
