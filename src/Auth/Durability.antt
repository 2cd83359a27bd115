-- ===== src/Auth/Durability.antt =====
-- FileSessionStore of internal/auth/session.go: what a restart finds.
use anix_ops_sd_wan.Base.{
  ℕ, Text, ◌==◌, eq_iff, eq_refl, true, false, ◌≡◌, refl, inl, inr, Option, none, some, [], ◌∷◌,
  arith, if◌then◌else◌, Bool-cases,
}
use anix_ops_sd_wan.Base.Table.{
  Table, lookup, put, values, lookup-put, Fresh-lookup, IsMap, Entries,
}
use anix_ops_sd_wan.Auth.Session.{
  Session, SessionStore, add_sessions, new_session_store_from_sessions, authenticate, revoke,
  snapshot, FileSessionStore, save, new_file_session_store, file_revoke,
}
use anix_ops_sd_wan.Auth.Validity.{
  IsProper, IsProperStore, revoke-IsProperStore, authenticate-revoke,
}

abbrev or_else : Option Session → Option Session → Option Session
or_else (some s) o = some s
or_else none o = o

lookup-add_sessions :
    (k : Text) (m t : Table Session)
    → IsMap t
    → Entries IsProper t
    → (k == []) ≡ false
    → lookup k (add_sessions m (values t)) ≡ or_else (lookup k t) (lookup k m)
unfolding add_sessions lookup
lookup-add_sessions k m [] keys proper given = refl
lookup-add_sessions k m ((j, session) ∷ t) keys proper given =
    let m' : Table Session = if session.token == [] then m else put session.token session m in
    ground (
      arith,
      lookup-add_sessions k m' t keys.1 proper.1 given,
      proper.0.own,
      lookup-put session.token k session m,
      eq_iff session.token k,
      eq_iff session.token [],
      eq_iff k [],
      Fresh-lookup j t keys.0,
    )

-- A file of the sessions of a store, and what a process that starts on it authenticates.
lookup-restart :
    (s : SessionStore) (k : Text)
    → IsProperStore s
    → (k == []) ≡ false
    → lookup k (new_session_store_from_sessions (snapshot s)).sessions ≡ lookup k s.sessions
unfolding new_session_store_from_sessions snapshot lookup
lookup-restart s k v given =
    ground (arith, lookup-add_sessions k [] s.sessions v.keys v.proper given)

-- After a save that meets no fault, a process that starts on the file authenticates exactly the
-- tokens, at the times and with the subjects, that the saving process does.
pub authenticate-restart :
    (f : FileSessionStore) (token : Text) (now clock : ℕ)
    → IsProperStore f.store
    → authenticate (new_file_session_store (save f false).0.file).store token now clock
      ≡ authenticate f.store token now clock
unfolding authenticate save new_file_session_store
authenticate-restart f token now clock v = elim (Bool-cases (token == [])) [
  | inl e ↦ rw e
  | inr e ↦ ground (arith, e, lookup-restart f.store token v e)
]

-- Where the save inside Revoke meets a fault, Revoke of a known token still answers true and this
-- process refuses the token, but the file is unchanged: a process that starts on it authenticates
-- the revoked token just as one started before the call.
pub file_revoke-fault :
    (f : FileSessionStore) (token : Text) (session : Session) (now clock : ℕ)
    → lookup token f.store.sessions ≡ some session
    → let (g, answer) = file_revoke f token true in
      (answer ≡ true)
      × (authenticate g.store token now clock ≡ none)
      × (authenticate (new_file_session_store g.file).store token now clock
          ≡ authenticate (new_file_session_store f.file).store token now clock)
unfolding file_revoke save revoke
file_revoke-fault f token session now clock h =
    ground (arith, h, authenticate-revoke f.store token token now clock, eq_refl token)

revoke-known :
    (s : SessionStore) (token : Text) (session : Session)
    → lookup token s.sessions ≡ some session
    → (revoke s token).1 ≡ true
unfolding revoke
revoke-known s token session h = ground (arith, h)

-- Where the save meets no fault, the revocation survives: neither this process nor one that starts
-- on the file authenticates the token.
pub file_revoke-durable :
    (f : FileSessionStore) (token : Text) (session : Session) (now clock : ℕ)
    → IsProperStore f.store
    → lookup token f.store.sessions ≡ some session
    → let (g, answer) = file_revoke f token false in
      (answer ≡ true)
      × (authenticate g.store token now clock ≡ none)
      × (authenticate (new_file_session_store g.file).store token now clock ≡ none)
unfolding file_revoke save
file_revoke-durable f token session now clock v h =
    let g : FileSessionStore = record { store = (revoke f.store token).0; file = f.file } in
    ground (
      arith,
      revoke-known f.store token session h,
      eq_refl token,
      authenticate-revoke f.store token token now clock,
      authenticate-restart g token now clock (revoke-IsProperStore f.store token v),
    )
