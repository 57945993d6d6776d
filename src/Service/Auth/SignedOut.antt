-- ===== src/Service/Auth/SignedOut.antt =====
-- internal/service/auth.go and internal/store/repo_auth.go: what a session that was ended is good
-- for. The list of denied sessions changes by further denials and by pruning.
pub mod Writes
use certio.Prelude.{
  ℕ, ◌≤◌, ◌≡◌, Bool, true, false, not, ◌&&◌, List, [], ◌∷◌, some, String, str_eq, eq_iff, arith,
  any, keep, ltb, ◌≢◌, sym, ◌∙◌, subst, any-append,
}
use certio.Text.{Text, txt, has_prefix}
use certio.Store.Models.{RevokedSession}
use certio.Store.Exec.{Exec, Err, fail_if, invalid_credentials, ◌>>=◌}
use certio.Store.Exec.Triple.{
  Pred, IsStable, Triple, Triple-fail_if, Triple-bind, Triple-if, Triple-of, Triple-fact,
  Triple-weaken, Triple-select,
}
use certio.Store.Repos.Sessions
use certio.Store.Repos.Sessions.{is_denied_by, add_session}
use certio.Service.Crl.Steps.{Triple-or_fail}
use certio.Service.Scope.{Principal}
use certio.Service.Auth.{Claims, Jwt, Lifetimes, principal_from_claims, refresh_session}
use certio.Service.Auth.Access.{auth, resolve, session_revoked}

-- An entry of the list refuses a session of a user at a time.
abbrev pub refuses : ℕ → String → String → RevokedSession → Bool
refuses t session_id user_id s = is_denied_by session_id user_id s && ltb t s.expires_at

abbrev pub Denied : ℕ → String → String → Pred
Denied t session_id user_id w = any (refuses t session_id user_id) w.revoked_sessions ≡ true

module _ (t : ℕ) (session_id user_id : String) where
  pub denied-IsStable : IsStable (Denied t session_id user_id)
  denied-IsStable = record { faults = λ w fs h. h; audit = λ w log h. h }

  Triple-is_revoked :
      Triple
        (λ _. Unit)
        (Denied t session_id user_id)
        (Sessions.is_revoked t session_id user_id)
        (λ b w. b ≡ true)
  unfolding Sessions.is_revoked
  Triple-is_revoked =
      Triple-weaken (λ b w h. sym h.1 ∙ h.0) (Triple-select denied-IsStable (λ w h. tt) _)

  -- Denials and prunings that come before.
  pub refuses-keep :
      (before : ℕ) (rows : List RevokedSession)
      → before ≤ t
      → any (refuses t session_id user_id) rows ≡ true
      → any (refuses t session_id user_id) (keep (λ s. not (ltb s.expires_at before)) rows) ≡ true
  refuses-keep before [] le h = h
  refuses-keep before (s ∷ rows) le h = ground (arith, refuses-keep before rows)

  pub refuses-add :
      (s : RevokedSession) (rows : List RevokedSession)
      → any (refuses t session_id user_id) rows ≡ true
      → any (refuses t session_id user_id) (add_session s rows) ≡ true
  refuses-add s rows h = ground (arith, any-append (refuses t session_id user_id) rows (s ∷ []))

module _ {A : Type 0} where
  -- What comes after a refusal is not reached.
  Triple-void : {Q : A → Pred} (m : Exec A) → Triple (λ _. Unit) (λ _. ⊥) m Q
  Triple-void m = record { at = λ w h. absurd h }

Triple-refuse : (b : Bool) (e : Err) → Triple (λ _. Unit) (λ _. b ≡ true) (fail_if b e) (λ _ _. ⊥)
Triple-refuse b e = Triple-weaken (λ a w h. absurd (cc)) (Triple-fail_if b e (λ w h. tt))

principal_of_claims :
    (c : Claims) (p : Principal)
    → principal_from_claims c ≡ some p
    → (p.session_id ≡ c.sid) × (p.user_id ≡ c.sub)
unfolding principal_from_claims
principal_of_claims c p e = ground arith

module _ (jwt : Jwt) (t : ℕ) (raw : Text) (c : Claims) (parsed : jwt.parse t raw ≡ some c) where
  -- A pair is not renewed where the session is denied.
  pub Triple-refresh_session :
      (ttl : Lifetimes) (fresh : String)
      → Triple (λ _. Unit) (Denied t c.sid c.sub) (refresh_session jwt ttl t fresh raw) (λ _ _. ⊥)
  unfolding refresh_session
  Triple-refresh_session ttl fresh =
      Triple-bind (Triple-or_fail invalid_credentials (jwt.parse t raw)) λ c'.
        Triple-fact {F = c' ≡ c} (λ w h. cc)
          λ same. Triple-bind (Triple-weaken (λ a w h. h.0) (Triple-fail_if _ _ (λ w h. tt))) λ _.
            Triple-bind
              (Triple-of (λ w h. subst (λ k. Denied t k.sid k.sub w) (sym same) h.0)
                (Triple-is_revoked t c'.sid c'.sub))
              λ b. Triple-bind (Triple-refuse b _) λ _. Triple-void _

  Triple-session_revoked :
      (p : Principal)
      → p.session_id ≢ ""
      → Triple (λ _. Unit) (Denied t p.session_id p.user_id) (session_revoked t p) (λ b w. b ≡ true)
  unfolding session_revoked
  Triple-session_revoked p named =
      Triple-if (str_eq p.session_id "") _ _ (λ e. absurd (ground (arith, eq_iff p.session_id "")))
        λ _. Triple-is_revoked t p.session_id p.user_id

  Triple-resolve :
      (hash_api_token : Text → Text)
      → has_prefix (txt "certio_") raw ≡ false
      → Triple
          (λ _. Unit)
          (Denied t c.sid c.sub)
          (resolve hash_api_token t jwt raw)
          (λ p w. Denied t c.sid c.sub w × (p.session_id ≡ c.sid) × (p.user_id ≡ c.sub))
  unfolding resolve principal_from_claims
  Triple-resolve hash_api_token web =
      Triple-if (has_prefix (txt "certio_") raw) _ _ (λ e. absurd (cc))
        λ _. Triple-bind (Triple-or_fail invalid_credentials (jwt.parse t raw)) λ c'.
          Triple-fact {F = c' ≡ c} (λ w h. cc)
            λ same.
              Triple-weaken
                (λ p w h.
                  let (sid, sub) =
                    principal_of_claims c p
                      (subst (λ k. principal_from_claims k ≡ some p) same h.1) in
                  (h.0.0, sid, sub))
                (Triple-or_fail invalid_credentials (principal_from_claims c'))

  pub Triple-auth :
      (hash_api_token : Text → Text)
      → has_prefix (txt "certio_") raw ≡ false
      → c.sid ≢ ""
      → Triple (λ _. Unit) (Denied t c.sid c.sub) (auth hash_api_token t jwt raw) (λ _ _. ⊥)
  unfolding auth
  Triple-auth hash_api_token web named =
      Triple-bind (Triple-weaken (λ a w h. h.0) (Triple-fail_if _ _ (λ w h. tt))) λ _.
        Triple-bind (Triple-resolve hash_api_token web) λ p.
          Triple-fact {F = (p.session_id ≡ c.sid) × (p.user_id ≡ c.sub)} (λ w h. (h.1, h.2))
            λ (sid, sub).
              Triple-bind
                (Triple-of
                  (λ w h.
                    subst (λ k. Denied t k p.user_id w) (sym sid)
                      (subst (λ k. Denied t c.sid k w) (sym sub) h.0))
                  (Triple-session_revoked p (λ e. named (sym sid ∙ e))))
                λ b. Triple-bind (Triple-refuse b _) λ _. Triple-void _
