-- ===== src/Auth/Validity.antt =====
-- Which tokens authenticate (internal/auth/session.go), call by call and over a history of calls.
use anix_ops_sd_wan.Base.{
  ℕ, ◌+◌, ◌<◌, ℤ, pos_part, ltb, Text, ◌==◌, eq_iff, eq_refl, true, false, ◌≡◌, ◌∙◌, ◌≢◌, inl, inr,
  Option, none, some, List, [], ◌∷◌, arith, if◌then◌else◌, Option-cases, Outcome-cases, ok,
}
use anix_ops_sd_wan.Base.Table.{
  lookup, lookup-put, IsMap, put-IsMap, Entries, put-Entries, lookup-Entries,
}
use anix_ops_sd_wan.Auth.{Subject}
use anix_ops_sd_wan.Auth.Session.{
  Session, SessionStore, new_session_store, or_clock, new_session, issue, authenticate, revoke,
}

-- After a successful Issue of a token that is not empty, the new token authenticates as the subject
-- until the lifetime, counted from the time of the call, is over, and never afterwards; every other
-- token authenticates as before.
pub authenticate-issue :
    (s : SessionStore) (subject : Subject) (ttl : ℤ) (now clock : ℕ) (token : Text)
    (session : Session) (j : Text) (later clock' : ℕ)
    → (issue s subject ttl now clock (some token)).1 ≡ ok session
    → (token == []) ≡ false
    → authenticate (issue s subject ttl now clock (some token)).0 j later clock' ≡ (
        if token == j
        then (if ltb (or_clock later clock') (or_clock now clock + pos_part ttl)
            then some subject
            else none)
        else authenticate s j later clock')
unfolding issue authenticate new_session
authenticate-issue s subject ttl now clock token session j later clock' h given =
    ground
      (arith, lookup-put token j session s.sessions, eq_iff token j, eq_iff token [], eq_iff j [])

-- After Revoke of a token, known or not, that token does not authenticate at any time, and every
-- other token authenticates as before.
pub authenticate-revoke :
    (s : SessionStore) (token j : Text) (now clock : ℕ)
    → authenticate (revoke s token).0 j now clock
      ≡ (if token == j then none else authenticate s j now clock)
unfolding authenticate revoke
authenticate-revoke s token j now clock = elim (Option-cases (lookup token s.sessions)) [
  | inl e ↦ ground (arith, e, eq_iff token j)
  | inr (session, e) ↦
      ground (
        arith,
        e,
        eq_iff token j,
        lookup-put token j (record session { revoked = true }) s.sessions,
      )
]

pub data Call : Type 0 where
  issues : Subject → ℤ → ℕ → ℕ → Option Text → Call
  revokes : Text → Call

unfoldable pub step : SessionStore → Call → SessionStore
step s (issues subject ttl now clock drawn) = (issue s subject ttl now clock drawn).0
step s (revokes token) = (revoke s token).0

unfoldable pub run : SessionStore → List Call → SessionStore
run s [] = s
run s (c ∷ calls) = run (step s c) calls

-- No call of the history draws this token.
abbrev pub Undrawn : Text → List Call → Type 0
Undrawn token [] = Unit {0}
Undrawn token (issues subject ttl now clock drawn ∷ calls) =
    (drawn ≢ some token) × Undrawn token calls
Undrawn token (revokes other ∷ calls) = Undrawn token calls

authenticate-issue_other :
    (s : SessionStore) (subject : Subject) (ttl : ℤ) (now clock : ℕ) (drawn : Option Text)
    (j : Text) (later clock' : ℕ)
    → drawn ≢ some j
    → authenticate (issue s subject ttl now clock drawn).0 j later clock'
      ≡ authenticate s j later clock'
unfolding issue authenticate new_session
authenticate-issue_other s subject ttl now clock none j later clock' h = ground arith
authenticate-issue_other s subject ttl now clock (some token) j later clock' h =
    let made : Session = record {
      token = token;
      subject = subject;
      expires_at = or_clock now clock + pos_part ttl;
      revoked = false;
    } in
    ground (arith, lookup-put token j made s.sessions, eq_iff token j, h)

Dead : SessionStore → Text → Type 0
Dead s token = (now clock : ℕ) → authenticate s token now clock ≡ none

step-Dead :
    (s : SessionStore) (c : Call) (token : Text)
    → Undrawn token (c ∷ [])
    → Dead s token
    → Dead (step s c) token
unfolding step Dead
step-Dead s (issues subject ttl now clock drawn) token u dead t c =
    authenticate-issue_other s subject ttl now clock drawn token t c u.0 ∙ dead t c
step-Dead s (revokes other) token u dead t c =
    ground (arith, authenticate-revoke s other token t c, dead t c)

run-Dead :
    (s : SessionStore) (calls : List Call) (token : Text)
    → Undrawn token calls
    → Dead s token
    → Dead (run s calls) token
unfolding run
run-Dead s [] token u dead = dead
run-Dead s (issues subject ttl now clock drawn ∷ calls) token u dead =
    let c = issues subject ttl now clock drawn in
    run-Dead (step s c) calls token u.1 (step-Dead s c token (u.0, tt) dead)
run-Dead s (revokes other ∷ calls) token u dead =
    run-Dead (step s (revokes other)) calls token u (step-Dead s (revokes other) token tt dead)

-- A revoked token never authenticates again, whatever calls of Issue and Revoke follow, as long as
-- none of them draws the same token.
pub revoked_forever :
    (s : SessionStore) (token : Text) (calls : List Call) (now clock : ℕ)
    → Undrawn token calls
    → authenticate (run (revoke s token).0 calls) token now clock ≡ none
unfolding Dead
revoked_forever s token calls now clock u =
    run-Dead (revoke s token).0 calls token u
      (λ t c. ground (arith, authenticate-revoke s token token t c, eq_refl token)) now clock

-- A session that Issue may make: under its own token, for a subject with an ID, a tenant and a
-- role.
pub record IsProper (token : Text) (session : Session) : Type 0 where
  pub own : session.token ≡ token
  pub id : (session.subject.id == []) ≡ false
  pub tenant : (session.subject.tenant_id == []) ≡ false
  pub roles : session.subject.roles ≢ []

pub record IsProperStore (s : SessionStore) : Type 0 where
  pub keys : IsMap s.sessions
  pub proper : Entries IsProper s.sessions

new_session-IsProper :
    (subject : Subject) (ttl : ℤ) (now clock : ℕ) (drawn : Option Text) (session : Session)
    → new_session subject ttl now clock drawn ≡ ok session
    → IsProper session.token session
unfolding new_session
new_session-IsProper subject ttl now clock drawn session h = ground arith

issue-IsProperStore :
    (s : SessionStore) (subject : Subject) (ttl : ℤ) (now clock : ℕ) (drawn : Option Text)
    → IsProperStore s
    → IsProperStore (issue s subject ttl now clock drawn).0
unfolding issue
issue-IsProperStore s subject ttl now clock drawn v =
    elim (Outcome-cases (new_session subject ttl now clock drawn)) [
      | inl (session, e) ↦ rw e (record {
        keys = put-IsMap session.token session s.sessions v.keys;
        proper =
            put-Entries IsProper session.token session s.sessions
              (new_session-IsProper subject ttl now clock drawn session e) v.proper;
      })
      | inr (error, e) ↦ rw e v
    ]

pub revoke-IsProperStore :
    (s : SessionStore) (token : Text) → IsProperStore s → IsProperStore (revoke s token).0
unfolding revoke
revoke-IsProperStore s token v = elim (Option-cases (lookup token s.sessions)) [
  | inl e ↦ rw (e, revoke) v
  | inr (session, e) ↦
      let old = lookup-Entries IsProper token s.sessions v.proper e in
      rw (e, revoke)
        (record {
          keys = put-IsMap token (record session { revoked = true }) s.sessions v.keys;
          proper =
              put-Entries IsProper token (record session { revoked = true }) s.sessions
                (record { own = old.own; id = old.id; tenant = old.tenant; roles = old.roles })
                v.proper;
        })
]

run-IsProperStore :
    (s : SessionStore) (calls : List Call) → IsProperStore s → IsProperStore (run s calls)
unfolding run step
run-IsProperStore s [] v = v
run-IsProperStore s (issues subject ttl now clock drawn ∷ calls) v =
    run-IsProperStore (issue s subject ttl now clock drawn).0 calls
      (issue-IsProperStore s subject ttl now clock drawn v)
run-IsProperStore s (revokes token ∷ calls) v =
    run-IsProperStore (revoke s token).0 calls (revoke-IsProperStore s token v)

authenticate-found :
    (s : SessionStore) (token : Text) (now clock : ℕ) (subject : Subject)
    → authenticate s token now clock ≡ some subject
    → (session : Session) × (lookup token s.sessions ≡ some session)
      × (session.revoked ≡ false)
      × (or_clock now clock < session.expires_at)
      × (session.subject ≡ subject)
unfolding authenticate
authenticate-found s token now clock subject h = elim (Option-cases (lookup token s.sessions)) [
  | inl e ↦ absurd (ground arith)
  | inr (session, e) ↦ (session, e, ground arith, ground arith, ground arith)
]

-- Over any history from the empty store, a token that authenticates stands for a session that is
-- stored under that token, not revoked and not yet over, and whose subject, the one returned, has
-- an ID, a tenant and at least one role.
pub authenticated_session :
    (calls : List Call) (token : Text) (now clock : ℕ) (subject : Subject)
    → authenticate (run new_session_store calls) token now clock ≡ some subject
    → (session : Session) × (lookup token (run new_session_store calls).sessions ≡ some session)
      × IsProper token session
      × (session.revoked ≡ false)
      × (or_clock now clock < session.expires_at)
      × (session.subject ≡ subject)
authenticated_session calls token now clock subject h =
    let s = run new_session_store calls in
    let v = run-IsProperStore new_session_store calls (record { keys = tt; proper = tt }) in
    let (session, e, r, t, x) = authenticate-found s token now clock subject h in
    (session, e, lookup-Entries IsProper token s.sessions v.proper e, r, t, x)
