-- ===== src/Service/OAuth/States.antt =====
-- internal/service/oauth.go: the sign-ins that wait for the answer of the identity provider,
-- `oauthStateStore`. Random values and the clock are arguments.
pub mod Waiting
pub mod Once
use certio.Prelude.{
  ℕ, ◌+◌, ◌-◌, ◌*◌, Bool, not, Option, none, some, String, str_eq, if◌then◌else◌, ltb, keep,
}
use certio.Text.{Text}
use certio.Store.{find, save, delete}
use certio.Store.Models.{OAuthPending, OAuthStates}

abbrev pub oauth_state_ttl : ℕ
oauth_state_ttl = 10 * 60

abbrev pub state_key : OAuthPending → String
state_key p = p.state

abbrev pub is_expired : ℕ → OAuthPending → Bool
is_expired now p = ltb p.expires_at now

-- At most once in the lifetime of an entry.
unfoldable pub collect : ℕ → OAuthStates → OAuthStates
collect now s =
    if ltb (now - s.last_gc) oauth_state_ttl
    then s
    else record { entries = keep (λ p. not (is_expired now p)) s.entries; last_gc = now }

abbrev pub remember : OAuthPending → OAuthStates → OAuthStates
remember p s = record s { entries = save state_key p s.entries }

-- A state and its verifier are drawn before anything is remembered.
unfoldable pub issue :
    Option String → Option Text → ℕ → OAuthStates → Option (String × Text) × OAuthStates
unfolding collect
issue none verifier now s = (none, s)
issue (some state) none now s = (none, s)
issue (some state) (some verifier) now s = (
  some (state, verifier),
  remember (record { state = state; verifier = verifier; expires_at = now + oauth_state_ttl })
      (collect now s),
)

-- The state goes, whether or not it has expired.
abbrev redeem_found : String → ℕ → OAuthStates → Option OAuthPending → Option Text × OAuthStates
redeem_found state now s none = (none, s)
redeem_found state now s (some p) = (
  if is_expired now p then none else some p.verifier,
  record s { entries = delete state_key state s.entries },
)

unfoldable pub redeem : String → ℕ → OAuthStates → Option Text × OAuthStates
redeem state now s =
    if str_eq state "" then (none, s) else redeem_found state now s (find state_key state s.entries)
