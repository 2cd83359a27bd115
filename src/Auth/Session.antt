-- ===== src/Auth/Session.antt =====
-- internal/auth/session.go. A time is the nanoseconds since Go's zero time, so that 0 is
-- `IsZero`; the clock, the random token and the faults of the disk are arguments.
use anix_ops_sd_wan.Base.{
  ℕ, ◌+◌, ℤ, pos, lebℤ, pos_part, ltb, eqb, Text, ◌==◌, Bool, true, false, not, ◌||◌, Option, none,
  some, List, [], ◌∷◌, if◌then◌else◌, Outcome, ok, err, ◌>>=◌, ◌>>◌, reject,
}
use anix_ops_sd_wan.Base.Table.{Table, lookup, put, values}
use anix_ops_sd_wan.Auth.{
  Subject, AuthError, subject_id_required, subject_tenant_required, roles_required,
  ttl_not_positive, token_failed, save_failed,
}

pub record Session : Type 0 where
  pub token : Text
  pub subject : Subject
  pub expires_at : ℕ
  pub revoked : Bool

pub record SessionStore : Type 0 where
  pub sessions : Table Session

abbrev pub new_session_store : SessionStore
new_session_store = record { sessions = [] }

unfoldable pub add_sessions : Table Session → List Session → Table Session
add_sessions m [] = m
add_sessions m (session ∷ rest) =
    add_sessions (if session.token == [] then m else put session.token session m) rest

unfoldable pub new_session_store_from_sessions : List Session → SessionStore
unfolding add_sessions
new_session_store_from_sessions sessions = record { sessions = add_sessions [] sessions }

-- if now.IsZero() { now = time.Now().UTC() }
abbrev pub or_clock : ℕ → ℕ → ℕ
or_clock now clock = if eqb now 0 then clock else now

no_roles : List Text → Bool
no_roles [] = true
no_roles (r ∷ rs) = false

check_token : Option Text → Outcome AuthError Text
check_token none = err token_failed
check_token (some token) = ok token

-- The checks of Issue, and the session that it makes. `drawn` is the token made of 32 random
-- bytes, or `none` where rand.Read fails.
unfoldable pub new_session : Subject → ℤ → ℕ → ℕ → Option Text → Outcome AuthError Session
unfolding no_roles check_token
new_session subject ttl now clock drawn = do
  reject (subject.id == []) subject_id_required
  reject (subject.tenant_id == []) subject_tenant_required
  reject (no_roles subject.roles) roles_required
  reject (lebℤ ttl (pos 0)) ttl_not_positive
  token ← check_token drawn
  ok (record {
    token = token;
    subject = subject;
    expires_at = or_clock now clock + pos_part ttl;
    revoked = false;
  })

stored : SessionStore → Outcome AuthError Session → SessionStore
stored s (err e) = s
stored s (ok session) = record { sessions = put session.token session s.sessions }

-- The store after the call, and its result.
unfoldable pub issue :
    SessionStore → Subject → ℤ → ℕ → ℕ → Option Text → SessionStore × Outcome AuthError Session
unfolding stored
issue s subject ttl now clock drawn =
    let session = new_session subject ttl now clock drawn in (stored s session, session)

live_subject : Option Session → ℕ → Option Subject
live_subject none now = none
live_subject (some session) now =
    if session.revoked || not (ltb now session.expires_at) then none else some session.subject

-- `none` is the pair of no subject and false.
unfoldable pub authenticate : SessionStore → Text → ℕ → ℕ → Option Subject
unfolding live_subject
authenticate s token now clock =
    if token == [] then none else live_subject (lookup token s.sessions) (or_clock now clock)

revoke_found : SessionStore → Text → Option Session → SessionStore × Bool
revoke_found s token none = (s, false)
revoke_found s token (some session) =
    (record { sessions = put token (record session { revoked = true }) s.sessions }, true)

unfoldable pub revoke : SessionStore → Text → SessionStore × Bool
unfolding revoke_found
revoke s token = revoke_found s token (lookup token s.sessions)

unfoldable pub snapshot : SessionStore → List Session
snapshot s = values s.sessions

-- The store with its file: what the last rename left on disk.
pub record FileSessionStore : Type 0 where
  pub store : SessionStore
  pub file : Option (List Session)

-- save: the file is replaced by one rename at the end, so a fault in any call before it (or in the
-- rename) leaves the file as it was and is returned.
unfoldable pub save : FileSessionStore → Bool → FileSessionStore × Outcome AuthError (Unit {0})
save f fault =
    if fault then (f, err save_failed) else (record f { file = some (snapshot f.store) }, ok tt)

file_sessions : Option (List Session) → List Session
file_sessions none = []
file_sessions (some sessions) = sessions

-- NewFileSessionStore on a file that is absent or decodes.
unfoldable pub new_file_session_store : Option (List Session) → FileSessionStore
unfolding file_sessions
new_file_session_store file = record {
  store = new_session_store_from_sessions (file_sessions file);
  file = file;
}

saved :
    FileSessionStore
    → Bool
    → Outcome AuthError Session
    → FileSessionStore × Outcome AuthError Session
saved f fault (err e) = (f, err e)
saved f fault (ok session) = let (f', outcome) = save f fault in (f', (do outcome; ok session))

unfoldable pub file_issue :
    FileSessionStore
    → Subject
    → ℤ
    → ℕ
    → ℕ
    → Option Text
    → Bool
    → FileSessionStore × Outcome AuthError Session
unfolding saved
file_issue f subject ttl now clock drawn fault =
    let (s, session) = issue f.store subject ttl now clock drawn in
    saved (record f { store = s }) fault session

unfoldable pub file_revoke : FileSessionStore → Text → Bool → FileSessionStore × Bool
file_revoke f token fault =
    let (s, revoked) = revoke f.store token in
    let f' = record f { store = s } in (if revoked then (save f' fault).0 else f', revoked)
