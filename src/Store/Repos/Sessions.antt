-- ===== src/Store/Repos/Sessions.antt =====
-- internal/store/repo_auth.go: the list of denied sessions, `SessionRepo`.
use Prim.Native.String.{◌++◌ as str_append}
use certio.Prelude.{
  ℕ, Bool, not, ◌&&◌, ◌||◌, List, [], ◌∷◌, ◌++◌, String, str_eq, any, keep, ltb, if◌then◌else◌,
}
use certio.Store.Models.{RevokedSession}
use certio.Store.Exec.{World, Exec, select, write}

abbrev pub has_session : String → RevokedSession → Bool
has_session id s = str_eq s.session_id id

abbrev pub with_sessions : (List RevokedSession → List RevokedSession) → World → World
with_sessions f w = record w { revoked_sessions = f w.revoked_sessions }

abbrev pub add_session : RevokedSession → List RevokedSession → List RevokedSession
add_session s rows = if any (has_session s.session_id) rows then rows else rows ++ s ∷ []

-- An entry that is there already is left alone.
unfoldable pub revoke : ℕ → String → String → String → ℕ → Exec (Unit {0})
revoke now session_id user_id reason expires_at = write (
    with_sessions (
      add_session (record {
        session_id = session_id;
        user_id = user_id;
        reason = reason;
        expires_at = expires_at;
        revoked_at = now;
      })))

-- The entry that stands for everything a user holds.
unfoldable pub all_sessions_key : String → String
all_sessions_key user_id = str_append "user:" user_id

unfoldable pub revoke_all_for_user : ℕ → String → String → ℕ → Exec (Unit {0})
unfolding revoke all_sessions_key
revoke_all_for_user now user_id reason until =
    revoke now (all_sessions_key user_id) user_id reason until

-- The keys under which a session is denied.
abbrev pub is_denied_by : String → String → RevokedSession → Bool
is_denied_by session_id user_id s =
    has_session session_id s
    || (not (str_eq user_id "") && has_session (all_sessions_key user_id) s)

unfoldable pub is_revoked : ℕ → String → String → Exec Bool
is_revoked now session_id user_id =
    select
      (λ w. any (λ s. is_denied_by session_id user_id s && ltb now s.expires_at) w.revoked_sessions)

unfoldable pub prune : ℕ → Exec (Unit {0})
prune before = write (with_sessions (keep (λ s. not (ltb s.expires_at before))))
