-- ===== src/Auth/Tests.antt =====
-- Runs of internal/auth, and the theorems at concrete inputs.
use anix_ops_sd_wan.Base.{
  ◌<◌, pos, Text, str, ◌==◌, true, false, ◌≡◌, refl, ◌≢◌, ◌↔◌, none, some, [], ◌∷◌, arith, In, ok,
}
use anix_ops_sd_wan.Base.Table.{lookup, put}
use anix_ops_sd_wan.Auth.{
  Subject, Request, role_viewer, action_audit_read, action_manage, granting, new_authorizer,
  granted, allowed,
}
use anix_ops_sd_wan.Auth.Access.{MayDo, IsNamed, allowed_iff}
use anix_ops_sd_wan.Auth.Session.{
  Session, SessionStore, new_session_store, new_session, issue, authenticate, revoke,
  FileSessionStore, new_file_session_store, file_revoke,
}
use anix_ops_sd_wan.Auth.Validity.{
  IsProper, IsProperStore, issues, revokes, step, run, revoked_forever, authenticated_session,
}
use anix_ops_sd_wan.Auth.Durability.{file_revoke-fault}

abbrev viewer : Subject
viewer = record { id = str "u1"; tenant_id = str "t1"; roles = role_viewer ∷ [] }

abbrev read_audit : Request
read_audit = record { tenant_id = str "t1"; action = action_audit_read }

viewer-allowed : allowed new_authorizer viewer read_audit ≡ ok true
unfolding allowed granted new_authorizer granting lookup ◌==◌
viewer-allowed = refl

viewer_refused :
    allowed new_authorizer viewer (record { tenant_id = str "t1"; action = action_manage })
    ≡ ok false
unfolding allowed granted new_authorizer granting lookup ◌==◌
viewer_refused = refl

allowed_iff_example : (allowed new_authorizer viewer read_audit ≡ ok true) ↔ (
    IsNamed viewer read_audit
    × (viewer.tenant_id ≡ read_audit.tenant_id)
    × ((r : Text) × In r viewer.roles × MayDo r read_audit.action))
allowed_iff_example = allowed_iff viewer read_audit

abbrev first_session : Session
first_session = record { token = str "a"; subject = viewer; expires_at = 150; revoked = false }

abbrev one_session : SessionStore
one_session = record { sessions = (str "a", first_session) ∷ [] }

issued :
    issue new_session_store viewer (pos 50) 100 7 (some (str "a")) ≡ (one_session, ok first_session)
unfolding issue new_session put ◌==◌
issued = refl

other_issue : some (str "b") ≢ some (str "a")
other_issue e = ground arith

revoked_forever_example :
    authenticate
      (run
        (revoke one_session (str "a")).0
        (issues viewer (pos 50) 110 0 (some (str "b")) ∷ revokes (str "a") ∷ []))
      (str "a")
      120
      0
    ≡ none
revoked_forever_example =
    revoked_forever one_session (str "a")
      (issues viewer (pos 50) 110 0 (some (str "b")) ∷ revokes (str "a") ∷ []) 120 0
      (other_issue, tt)

authenticated_session_example :
    (session : Session) × (lookup
        (str "a")
        (run new_session_store (issues viewer (pos 50) 100 7 (some (str "a")) ∷ [])).sessions
      ≡ some session)
    × IsProper (str "a") session
    × (session.revoked ≡ false)
    × (120 < session.expires_at)
    × (session.subject ≡ viewer)
authenticated_session_example =
    authenticated_session (issues viewer (pos 50) 100 7 (some (str "a")) ∷ []) (str "a") 120 0
      viewer (unfold run step authenticate issue new_session put lookup ◌==◌ in refl)

one_session-IsProperStore : IsProperStore one_session
unfolding ◌==◌
one_session-IsProperStore = record {
  keys = (tt, tt);
  proper = (record { own = refl; id = refl; tenant = refl; roles = λ e. cc }, tt);
}

abbrev filed : FileSessionStore
filed = record { store = one_session; file = some (first_session ∷ []) }

one_session-lookup : lookup (str "a") one_session.sessions ≡ some first_session
unfolding lookup ◌==◌
one_session-lookup = refl

file_revoke-fault_example :
    ((file_revoke filed (str "a") true).1 ≡ true)
    × (authenticate (file_revoke filed (str "a") true).0.store (str "a") 120 0 ≡ none)
    × (authenticate
          (new_file_session_store (file_revoke filed (str "a") true).0.file).store
          (str "a")
          120
          0
        ≡ authenticate (new_file_session_store filed.file).store (str "a") 120 0)
file_revoke-fault_example = file_revoke-fault filed (str "a") first_session 120 0 one_session-lookup
