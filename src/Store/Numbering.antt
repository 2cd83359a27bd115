-- ===== src/Store/Numbering.antt =====
-- The IDs of the audit events of internal/store/memory.go.
use mathlib.Core.List.{append_cancel_left}
use anix_ops_sd_wan.Base.{
  ℕ, suc, ◌+◌, ◌≤◌, Text, str, ◌==◌, eq_iff, eq_refl, is_blank, trim_space, six_digits,
  six_digits_inj, true, ◌≡◌, ◌≢◌, refl, ap, ◌∙◌, List, [], ◌∷◌, ◌++◌, length, arith, inl, inr,
  Bool-cases,
}
use anix_ops_sd_wan.Base.Sorting.{All}
use anix_ops_sd_wan.Base.Table.{lookup, lookup-put}
use anix_ops_sd_wan.Net.{Net}
use anix_ops_sd_wan.Domain.{AuditEvent, validate_event}
use anix_ops_sd_wan.Store.{
  Memory, new_memory, inner, event_id, next_id, completed, record_audit_event,
}
use anix_ops_sd_wan.Store.Calls.{
  Call, creates, adds_device, adds_node, beats, retires, configures, notes, reports, rules,
  tenant_of, call, run,
}
use anix_ops_sd_wan.Store.Journal.{log_of, logged, call_appends}

blank_nil : is_blank [] ≡ true
unfolding trim_space ◌==◌
blank_nil = refl

module _ (net : Net) where
  -- The call brings no event with an ID of its own.
  abbrev pub IsUnnamed : Call → Type 0
  IsUnnamed (notes done event now) = event.id ≡ []
  IsUnnamed c = Unit {0}

  logged-id :
      (m : Memory) (c : Call)
      → IsUnnamed c
      → (call net m c).1 ≡ true
      → (logged net m c).id ≡ next_id m (tenant_of c)
  unfolding tenant_of completed call record_audit_event validate_event
  logged-id m (creates done tenant now now') u h = refl
  logged-id m (adds_device done device now now') u h = refl
  logged-id m (adds_node done node now now') u h = refl
  logged-id m (beats done heartbeat now now') u h = refl
  logged-id m (retires done tenant_id node_id now now') u h = refl
  logged-id m (configures done bundle now now') u h = refl
  logged-id m (notes done event now) u h =
      ground (arith, h, u, eq_refl [], eq_iff event.tenant_id [], blank_nil)
  logged-id m (reports done report clock now) u h = refl
  logged-id m (rules done rule now) u h = refl

-- The events carry the IDs <tenant>-<n + 1>, <tenant>-<n + 2> and so on.
abbrev pub IsNumbered : Text → ℕ → List AuditEvent → Type 0
IsNumbered j n [] = Unit {0}
IsNumbered j n (e ∷ es) = (e.id ≡ event_id j (suc n)) × IsNumbered j (suc n) es

IsNumbered-append :
    (j : Text) (n : ℕ) (es : List AuditEvent) (e : AuditEvent)
    → IsNumbered j n es
    → e.id ≡ event_id j (suc (n + length es))
    → IsNumbered j n (es ++ (e ∷ []))
IsNumbered-append j n [] e h eq = (eq ∙ ap (λ k. event_id j (suc k)) (omega arith), tt)
IsNumbered-append j n (f ∷ es) e h eq =
    (h.0, IsNumbered-append j (suc n) es e h.1 (eq ∙ ap (λ k. event_id j (suc k)) (omega arith)))

event_id_inj : (j : Text) (n k : ℕ) → event_id j n ≡ event_id j k → n ≡ k
unfolding event_id
event_id_inj j n k h =
    six_digits_inj n k (append_cancel_left (j ++ str "-") (six_digits n) (six_digits k) h)

-- No two events of the list have the same ID.
abbrev pub IsDistinct : List AuditEvent → Type 0
IsDistinct [] = Unit {0}
IsDistinct (e ∷ es) = All (λ f. e.id ≢ f.id) es × IsDistinct es

later_differ :
    (j : Text) (n k : ℕ) (es : List AuditEvent)
    → IsNumbered j k es
    → n ≤ k
    → All (λ f. event_id j n ≢ f.id) es
later_differ j n k [] h le = tt
later_differ j n k (f ∷ es) h le = (
  λ eq. absurd (omega (arith, event_id_inj j n (suc k) (eq ∙ h.0))),
  later_differ j n (suc k) es h.1 (omega arith),
)

numbered-IsDistinct : (j : Text) (n : ℕ) (es : List AuditEvent) → IsNumbered j n es → IsDistinct es
numbered-IsDistinct j n [] h = tt
numbered-IsDistinct j n (e ∷ es) h = (
  rw h.0 (later_differ j (suc n) (suc n) es h.1 (omega arith)),
  numbered-IsDistinct j (suc n) es h.1,
)

module _ (net : Net) where
  call-IsNumbered :
      (m : Memory) (c : Call) (j : Text)
      → IsUnnamed net c
      → IsNumbered j 0 (log_of j m)
      → IsNumbered j 0 (log_of j (call net m c).0)
  call-IsNumbered m c j u h = elim (call_appends net m c) [
    | inl failed ↦ rw failed h
    | inr (done, eq) ↦
        let next = inner (tenant_of c) m.audit ++ (logged net m c ∷ []) in
        let found = lookup-put (tenant_of c) j next m.audit in
        elim (Bool-cases (tenant_of c == j)) [
          | inl same ↦
              let key : tenant_of c ≡ j = (eq_iff (tenant_of c) j).0 same in
              let id = logged-id net m c u done in
              let log : log_of j (call net m c).0 ≡ log_of j m ++ (logged net m c ∷ []) =
                ground (arith, found, key, eq, same) in
              rw log
                (IsNumbered-append j 0 (log_of j m) (logged net m c) h (id ∙ ground (arith, key)))
          | inr other ↦ rw (eq, found, other) h
        ]
  ]

  run-IsNumbered :
      (m : Memory) (cs : List Call) (j : Text)
      → All (IsUnnamed net) cs
      → IsNumbered j 0 (log_of j m)
      → IsNumbered j 0 (log_of j (run net m cs))
  unfolding run
  run-IsNumbered m [] j u h = h
  run-IsNumbered m (c ∷ cs) j u h =
      run-IsNumbered (call net m c).0 cs j u.1 (call-IsNumbered m c j u.0 h)

  -- Over any history from the empty repository in which no event comes with an ID of its own, the
  -- events of each tenant are numbered from 1 without a gap, and no two of them have the same ID.
  pub audit-IsNumbered :
      (cs : List Call) (j : Text)
      → All (IsUnnamed net) cs
      → IsNumbered j 0 (log_of j (run net new_memory cs))
        × IsDistinct (log_of j (run net new_memory cs))
  audit-IsNumbered cs j u =
      let numbered = run-IsNumbered new_memory cs j u (unfold lookup in tt) in
      (numbered, numbered-IsDistinct j 0 (log_of j (run net new_memory cs)) numbered)
