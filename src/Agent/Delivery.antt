-- ===== src/Agent/Delivery.antt =====
-- What becomes of the reports that the agent (internal/agent) queues and pushes.
use anix_ops_sd_wan.Base.{
  ℕ, zero, suc, ◌-◌, ◌≤◌, Text, length, drop, length-drop, false, Option, none, some, List, [], ◌∷◌,
  ◌++◌, ◌>>=◌, ◌≡◌, ◌≢◌, ◌↔◌, refl, sym, arith, inl, inr, Outcome, ok, err, Outcome-cases,
  >>-succeeded, >>=-succeeded, Bool, Bool-cases,
}
use anix_ops_sd_wan.Base.Sorting.{All, All-append, map-All}
use anix_ops_sd_wan.Net.{Net}
use anix_ops_sd_wan.Telemetry.{Report, TelemetryError, validate_report, sanitized}
use anix_ops_sd_wan.Telemetry.Idempotence.{HasMaps, sanitized_idem}
use anix_ops_sd_wan.Agent.Queue.{
  FileTelemetryQueue, QueueError, file_reports, newest, checked, clean_all, load, written, save,
  push_all, DiskFaults, no_faults, save_error, cleared, keep_rest, push_loaded, push_telemetry,
}

All-drop : {A : Type 0} (P : A → Type 0) (n : ℕ) (xs : List A) → All P xs → All P (drop n xs)
All-drop P zero xs h = h
All-drop P (suc n) [] h = tt
All-drop P (suc n) (x ∷ xs) h = All-drop P n xs h.1

pub drop-nil : {A : Type 0} (n : ℕ) → drop {A = A} n [] ≡ []
drop-nil zero = refl
drop-nil (suc n) = refl

All-append_right : {A : Type 0} (P : A → Type 0) (xs ys : List A) → All P (xs ++ ys) → All P ys
All-append_right P [] ys h = h
All-append_right P (x ∷ xs) ys h = All-append_right P xs ys h.1

module _ (server : ℕ → Report → Option Text) where
  -- The pushes cut the list: what was accepted stands before what is left.
  push_all-append :
      (n : ℕ) (rs : List Report) → (push_all server n rs).sent ++ (push_all server n rs).left ≡ rs
  unfolding push_all
  push_all-append n [] = refl
  push_all-append n (r ∷ rs) = ground (arith, push_all-append (suc n) rs)

  push_all-nil :
      (n : ℕ) (rs : List Report)
      → (push_all server n rs).stop ≡ none
      → (push_all server n rs).left ≡ []
  unfolding push_all
  push_all-nil n [] h = refl
  push_all-nil n (r ∷ rs) h = ground (arith, push_all-nil (suc n) rs)

  push_all-cons :
      (n : ℕ) (rs : List Report) (e : Text)
      → (push_all server n rs).stop ≡ some e
      → (push_all server n rs).left ≢ []
  unfolding push_all
  push_all-cons n [] e h = λ k. cc
  push_all-cons n (r ∷ rs) e h = ground (arith, push_all-cons (suc n) rs e)

module _ (net : Net) where
  -- Sanitizing leaves the report as it is, whatever the clock reads.
  abbrev pub IsStable : Report → Type 0
  IsStable r = (clock : ℕ) → sanitized net r clock ≡ r

  -- A stable report that is valid.
  abbrev pub IsSettled : Report → Type 0
  IsSettled r = IsStable r × (validate_report r ≡ ok tt)

  -- The invariant of the file: it is within its bound, and all its reports are settled.
  abbrev pub IsQueue : FileTelemetryQueue → Type 0
  IsQueue q = (length (file_reports q.file) ≤ q.max_reports) × All IsSettled (file_reports q.file)

  checked-ok : (m : Outcome TelemetryError (Unit {0})) → checked m ≡ ok tt → m ≡ ok tt
  unfolding checked
  checked-ok (err e) h = cc
  checked-ok (ok u) h = refl

  clean_all-settled :
      (clock : ℕ) (rs : List Report) → All IsSettled rs → clean_all net clock rs ≡ ok rs
  unfolding clean_all checked
  clean_all-settled clock [] h = refl
  clean_all-settled clock (r ∷ rs) h = rw (h.0.0 clock, h.0.1, clean_all-settled clock rs h.1) refl

  -- Of stable reports, those that pass are settled.
  clean_all-IsSettled :
      (clock : ℕ) (rs : List Report) {clean : List Report}
      → All IsStable rs
      → clean_all net clock rs ≡ ok clean
      → All IsSettled clean
  unfolding clean_all
  clean_all-IsSettled clock [] {clean} h e = let same : [] ≡ clean = cc in rw (← same) tt
  clean_all-IsSettled clock (r ∷ rs) {clean} h e =
      let first = sanitized net r clock in
      let next : List Report → Outcome QueueError (List Report) = λ rest. ok (first ∷ rest) in
      let (passed, e1) =
        >>-succeeded (checked (validate_report first)) (clean_all net clock rs >>= next) e in
      let (rest, e2, e3) = >>=-succeeded (clean_all net clock rs) next e1 in
      let settled : IsSettled first =
        rw (h.0 clock) (h.0, cc (h.0 clock, checked-ok (validate_report first) passed)) in
      let same : first ∷ rest ≡ clean = cc in
      rw (← same) (settled, clean_all-IsSettled clock rs h.1 e3)

  newest-length : (bound : ℕ) (rs : List Report) → length (newest bound rs) ≤ bound
  unfolding newest
  newest-length bound rs = omega (arith, length-drop (length rs - bound) rs)

  save_error-queue :
      (e : Text) (p : FileTelemetryQueue × Outcome QueueError (Unit {0}))
      → ((save_error e p).0 ≡ p.0) × ((save_error e p).1 ≢ ok tt)
  unfolding save_error
  save_error-queue e (q, ok u) = (refl, λ k. cc)
  save_error-queue e (q, err why) = (refl, λ k. cc)

  cleared-queue :
      (p : FileTelemetryQueue × Outcome QueueError (Unit {0}))
      → ((cleared p).0 ≡ p.0) × (p.1 ≡ ok tt → (cleared p).1 ≡ ok tt)
  unfolding cleared
  cleared-queue (q, ok u) = (refl, λ k. refl)
  cleared-queue (q, err why) = (refl, λ k. cc)

  written-IsQueue :
      (q : FileTelemetryQueue) (fault : Bool) (clock : ℕ) (rs : List Report)
      → IsQueue q
      → All IsStable rs
      → IsQueue (written q fault (clean_all net clock rs)).0
  unfolding written newest
  written-IsQueue q fault clock rs kept h = elim (Outcome-cases (clean_all net clock rs)) [
    | inr (why, e) ↦ rw e kept
    | inl (clean, e) ↦ rw e (elim (Bool-cases fault) [
      | inl bad ↦ rw bad kept
      | inr good ↦
          let settled = clean_all-IsSettled clock rs h e in
          rw good (
            newest-length q.max_reports clean,
            All-drop IsSettled (length clean - q.max_reports) clean settled,
          )
    ])
  ]

  save-IsQueue :
      (q : FileTelemetryQueue) (fault : Bool) (clock : ℕ) (rs : List Report)
      → IsQueue q
      → All IsStable rs
      → IsQueue (save net q fault clock rs).0
  unfolding save
  save-IsQueue q fault clock [] kept h = elim (Bool-cases fault) [
    | inl bad ↦ rw bad kept
    | inr good ↦ rw good (omega arith, tt)
  ]
  save-IsQueue q fault clock (r ∷ rs) kept h = written-IsQueue q fault clock (r ∷ rs) kept h

  module _ (server : ℕ → Report → Option Text) where
    -- A save of settled reports, with the fault of the disk: what it leaves in the file.
    save-settled :
        (q : FileTelemetryQueue) (clock : ℕ) (rs : List Report)
        → All IsSettled rs
        → (file_reports (save net q false clock rs).0.file ≡ newest q.max_reports rs)
          × ((save net q false clock rs).1 ≡ ok tt)
    unfolding save written newest
    save-settled q clock [] h = (sym (drop-nil (0 - q.max_reports)), refl)
    save-settled q clock (r ∷ rs) h = rw (clean_all-settled clock (r ∷ rs) h) (refl, refl)

    keep_rest-settled :
        (q : FileTelemetryQueue) (clock : ℕ) (rs : List Report) (stop : Option Text)
        → All IsSettled rs
        → (stop ≡ none → rs ≡ [])
        → ((e : Text) → stop ≡ some e → rs ≢ [])
        → (file_reports (keep_rest net server q no_faults clock rs stop).0.file
            ≡ newest q.max_reports rs)
          × (((keep_rest net server q no_faults clock rs stop).1 ≡ ok tt) ↔ (rs ≡ []))
    unfolding keep_rest
    keep_rest-settled q clock rs (some e) h empty rest =
        let saved = save-settled q clock rs h in
        let (same, failed) = save_error-queue e (save net q false clock rs) in
        (rw same saved.0, (λ k. elim (failed k) [ ], λ k. elim (rest e refl k) [ ]))
    keep_rest-settled q clock rs none h empty rest =
        let saved = save-settled q clock [] tt in
        let (same, passed) = cleared-queue (save net q false clock []) in
        (rw (same, empty refl) saved.0, (λ k. empty refl, λ k. passed saved.1))

    push_all-left :
        (P : Report → Type 0) (rs : List Report) → All P rs → All P (push_all server 0 rs).left
    push_all-left P rs h =
        let cut = push_all-append server 0 rs in
        All-append_right P (push_all server 0 rs).sent (push_all server 0 rs).left (rw cut h)

    -- With no fault of the disk, a queue of settled reports and a new report that is valid once
    -- sanitized, has maps and comes with a set clock: what the server accepts, followed by some
    -- rest, is the queue with the new report at its end; the file then holds the newest of the
    -- rest, and the call succeeds exactly where there is none.
    pub push_telemetry-accounts :
        (q : FileTelemetryQueue) (clock : ℕ) (report : Report)
        → All IsSettled (file_reports q.file)
        → HasMaps report
        → clock ≢ 0
        → validate_report (sanitized net report clock) ≡ ok tt
        → let result = push_telemetry net server q no_faults clock report in
          (rest : List Report) × (result.1 ++ rest
            ≡ file_reports q.file ++ (sanitized net report clock ∷ []))
          × (file_reports result.0.0.file ≡ newest q.max_reports rest)
          × ((result.0.1 ≡ ok tt) ↔ (rest ≡ []))
    unfolding push_telemetry push_loaded load
    push_telemetry-accounts q clock report settled maps set valid =
        let clean = sanitized net report clock in
        let pending = file_reports q.file ++ (clean ∷ []) in
        let pushed = push_all server 0 pending in
        let new : IsSettled clean =
          ((λ later. sanitized_idem net report clock later maps set), valid) in
        let all = All-append IsSettled (file_reports q.file) (clean ∷ []) settled (new, tt) in
        let kept =
          keep_rest-settled q clock pushed.left pushed.stop (push_all-left IsSettled pending all)
            (push_all-nil server 0 pending) (push_all-cons server 0 pending) in
        rw (clean_all-settled clock (file_reports q.file) settled)
          (pushed.left, push_all-append server 0 pending, kept.0, kept.1)

    keep_rest-IsQueue :
        (q : FileTelemetryQueue) (faults : DiskFaults) (clock : ℕ) (rs : List Report)
        (stop : Option Text)
        → IsQueue q
        → All IsStable rs
        → IsQueue (keep_rest net server q faults clock rs stop).0
    unfolding keep_rest
    keep_rest-IsQueue q faults clock rs (some e) kept h =
        rw (save_error-queue e (save net q faults.save clock rs)).0
          (save-IsQueue q faults.save clock rs kept h)
    keep_rest-IsQueue q faults clock rs none kept h =
        rw (cleared-queue (save net q faults.save clock [])).0
          (save-IsQueue q faults.save clock [] kept tt)

    -- Under any faults of the disk and any answers of the server, a new report with maps, at a set
    -- clock, leaves the queue file within its bound and its reports stable and valid, where it was
    -- and they were before.
    pub push_telemetry-IsQueue :
        (q : FileTelemetryQueue) (faults : DiskFaults) (clock : ℕ) (report : Report)
        → IsQueue q
        → HasMaps report
        → clock ≢ 0
        → IsQueue (push_telemetry net server q faults clock report).0.0
    unfolding push_telemetry push_loaded load
    push_telemetry-IsQueue q faults clock report kept maps set = elim (Bool-cases faults.load) [
      | inl bad ↦ rw bad kept
      | inr good ↦
          let clean = sanitized net report clock in
          let pending = file_reports q.file ++ (clean ∷ []) in
          let pushed = push_all server 0 pending in
          let old = map-All IsSettled IsStable (file_reports q.file) (λ r h. h.0) kept.1 in
          let new : All IsStable (clean ∷ []) =
            ((λ later. sanitized_idem net report clock later maps set), tt) in
          let all = All-append IsStable (file_reports q.file) (clean ∷ []) old new in
          rw (good, clean_all-settled clock (file_reports q.file) kept.1)
            (keep_rest-IsQueue q faults clock pushed.left pushed.stop kept
              (push_all-left IsStable pending all))
    ]
