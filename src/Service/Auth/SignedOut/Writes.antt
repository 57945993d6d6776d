-- ===== src/Service/Auth/SignedOut/Writes.antt =====
-- internal/service/auth.go and internal/store/repo_auth.go: the list of denied sessions after a
-- sign-out or a change of an account, through later denials and prunings.
use certio.Prelude.{
  ℕ, ◌+◌, ◌*◌, ◌≤◌, ◌<◌, ◌≡◌, ◌≢◌, refl, sym, ◌∙◌, subst, Bool, true, false, List, [], ◌∷◌, some,
  String, str_eq, eq_iff, arith, any, All, any-append,
}
use certio.Text.{Text, txt, has_prefix}
use certio.Store.Models.{RevokedSession}
use certio.Store.Exec.{World, Result, ok, err, write}
use certio.Store.Exec.Triple.{
  Pred, IsStable, Post, Triple, Triple-bind, Triple-if, Triple-weaken, Triple-write,
  Triple-record_audit, Triple-Keeps,
}
use certio.Store.Repos.Sessions
use certio.Store.Repos.Sessions.{is_denied_by, has_session, add_session, all_sessions_key}
use certio.Service.Scope.{Principal}
use certio.Service.Auth.{Claims, Jwt, Lifetimes, refresh_session}
use certio.Service.Auth.Access.{auth, revoke_session, revoke_all_sessions}
use certio.Service.Auth.SignedOut.{
  refuses, Denied, denied-IsStable, refuses-keep, refuses-add, Triple-refresh_session, Triple-auth,
}

-- What is written to the list.
pub data SessionWrite : Type 0 where
  denying : ℕ → String → String → String → ℕ → SessionWrite
  denying_all : ℕ → String → String → ℕ → SessionWrite
  pruning : ℕ → SessionWrite

abbrev pub run_write : SessionWrite → World → World
run_write (denying now sid user_id reason until) w =
    (Sessions.revoke now sid user_id reason until w).1
run_write (denying_all now user_id reason until) w =
    (Sessions.revoke_all_for_user now user_id reason until w).1
run_write (pruning before) w = (Sessions.prune before w).1

abbrev pub IsBy : ℕ → SessionWrite → Type 0
IsBy t (pruning before) = before ≤ t
IsBy t _ = Unit

-- The schedule of faults of each write.
unfoldable pub write_sessions : List (List Bool × SessionWrite) → World → World
write_sessions [] w = w
write_sessions ((faults, step) ∷ steps) w =
    write_sessions steps (run_write step (record w { faults = faults }))

module _ (t : ℕ) (sid user_id : String) where
  keeps_denied :
      (f : World → World) (w : World)
      → ((w : World) → Denied t sid user_id w → Denied t sid user_id (f w))
      → Denied t sid user_id w
      → Denied t sid user_id (write f w).1
  keeps_denied f w k h =
      (Triple-Keeps {I = Denied t sid user_id}
          (Triple-write (denied-IsStable t sid user_id) (λ w h. h) f k)).at
        w h

  run_write-Denied :
      (step : SessionWrite) (w : World)
      → IsBy t step
      → Denied t sid user_id w
      → Denied t sid user_id (run_write step w)
  unfolding Sessions.revoke Sessions.revoke_all_for_user Sessions.prune
  run_write-Denied (denying now j other reason until) w by h =
      keeps_denied _ w (λ w. refuses-add t sid user_id _ w.revoked_sessions) h
  run_write-Denied (denying_all now other reason until) w by h =
      keeps_denied _ w (λ w. refuses-add t sid user_id _ w.revoked_sessions) h
  run_write-Denied (pruning before) w by h =
      keeps_denied _ w (λ w. refuses-keep t sid user_id before w.revoked_sessions by) h

  write_sessions-Denied :
      (steps : List (List Bool × SessionWrite)) (w : World)
      → All (λ s. IsBy t s.1) steps
      → Denied t sid user_id w
      → Denied t sid user_id (write_sessions steps w)
  unfolding write_sessions
  write_sessions-Denied [] w by h = h
  write_sessions-Denied ((faults, step) ∷ steps) w (by, rest) h =
      write_sessions-Denied steps _ rest (run_write-Denied step _ by h)

-- The list has no entry of a key.
abbrev pub Open : String → Pred
Open key w = any (has_session key) w.revoked_sessions ≡ false

open-IsStable : (key : String) → IsStable (Open key)
open-IsStable key = record { faults = λ w fs h. h; audit = λ w log h. h }

abbrev pub IsRefused : {A : Type 0} → Result A → Type 0
IsRefused (ok a) = ⊥
IsRefused (err e) = Unit

never : {A : Type 0} (r : Result A) (w : World) → Post (λ _. Unit) (λ _ _. ⊥) r w → IsRefused r
never (ok a) w h = h
never (err e) w h = tt

returned :
    {A : Type 0} (Q : A → Pred) (a : A) (r : Result A) (w : World)
    → r ≡ ok a
    → Post (λ _. Unit) Q r w
    → Q a w
returned Q a r w e h = subst (λ x. Post (λ _. Unit) Q x w) e h

refuses-new :
    (t : ℕ) (sid user_id : String) (s : RevokedSession) (rows : List RevokedSession)
    → any (has_session s.session_id) rows ≡ false
    → is_denied_by sid user_id s ≡ true
    → t < s.expires_at
    → any (refuses t sid user_id) (add_session s rows) ≡ true
refuses-new t sid user_id s rows new denies later =
    ground (arith, any-append (refuses t sid user_id) rows (s ∷ []))

module _ (ttl : Lifetimes) (now t : ℕ) (reason : String) where
  Triple-revoke_session :
      (p : Principal)
      → p.session_id ≢ ""
      → t < p.session_expiry + ttl.refresh_setting
      → Triple
          (λ _. Unit)
          (Open p.session_id)
          (revoke_session ttl now p reason)
          (λ _. Denied t p.session_id p.user_id)
  unfolding revoke_session Sessions.revoke
  Triple-revoke_session p named later =
      Triple-if (str_eq p.session_id "") _ _ (λ e. absurd (ground (arith, eq_iff p.session_id "")))
        λ _.
          Triple-bind
            (Triple-write (open-IsStable p.session_id) (λ w h. tt) _
              λ w h.
                refuses-new t p.session_id p.user_id _ w.revoked_sessions h
                  (ground (arith, eq_iff p.session_id p.session_id)) later)
            λ _.
              Triple-weaken (λ a w h. h)
                (Triple-record_audit (denied-IsStable t p.session_id p.user_id) _ _)

  Triple-revoke_all_sessions :
      (sid user_id : String)
      → user_id ≢ ""
      → t < now + ttl.refresh_setting * 2
      → Triple
          (λ _. Unit)
          (Open (all_sessions_key user_id))
          (revoke_all_sessions ttl now user_id reason)
          (λ _. Denied t sid user_id)
  unfolding revoke_all_sessions Sessions.revoke_all_for_user Sessions.revoke
  Triple-revoke_all_sessions sid user_id named later =
      Triple-write (open-IsStable (all_sessions_key user_id)) (λ w h. tt) _
        λ w h.
          refuses-new t sid user_id _ w.revoked_sessions h
            (ground (
              arith,
              eq_iff user_id "",
              eq_iff (all_sessions_key user_id) (all_sessions_key user_id),
            ))
            later

module _ (jwt : Jwt) (hash_api_token : Text → Text) (ttl : Lifetimes) (now t : ℕ)
    (reason : String) where
  denied_token :
      (sid user_id : String) (raw : Text) (c : Claims) (fresh : String) (w : World)
      → jwt.parse t raw ≡ some c
      → has_prefix (txt "certio_") raw ≡ false
      → c.sid ≢ ""
      → c.sid ≡ sid
      → c.sub ≡ user_id
      → Denied t sid user_id w
      → IsRefused (refresh_session jwt ttl t fresh raw w).0
        × IsRefused (auth hash_api_token t jwt raw w).0
  denied_token sid user_id raw c fresh w parsed web named same_sid same_sub h =
      let denied : Denied t c.sid c.sub w =
        subst (λ k. Denied t k c.sub w) (sym same_sid)
          (subst (λ k. Denied t sid k w) (sym same_sub) h) in
      (
        never _ _ ((Triple-refresh_session jwt t raw c parsed ttl fresh).at w denied),
        never _ _ ((Triple-auth jwt t raw c parsed hash_api_token web named).at w denied),
      )

  -- Where the lifetime of a refresh token is what the settings say, a session that has an id was not
  -- denied before, and signing it out returned before the principal's token expired: a web token of
  -- that session and user that was issued by then, and so expires within the lifetime of a refresh
  -- token, is refused at every time `t` until it expires, both as an access token and as a refresh
  -- token, after any later denials and prunings, none of them for a time after `t`, whatever queries
  -- the driver fails.
  pub revoke_session-IsRefused :
      (p : Principal) (w : World) (steps : List (List Bool × SessionWrite)) (raw : Text)
      (c : Claims) (fresh : String)
      → p.session_id ≢ ""
      → Open p.session_id w
      → (revoke_session ttl now p reason w).0 ≡ ok tt
      → All (λ s. IsBy t s.1) steps
      → ttl.refresh_ttl ≤ ttl.refresh_setting
      → now ≤ p.session_expiry
      → c.exp ≤ now + ttl.refresh_ttl
      → t < c.exp
      → jwt.parse t raw ≡ some c
      → has_prefix (txt "certio_") raw ≡ false
      → c.sid ≡ p.session_id
      → c.sub ≡ p.user_id
      → IsRefused
          (refresh_session jwt ttl t fresh raw
            (write_sessions steps (revoke_session ttl now p reason w).1)).0
        × IsRefused
            (auth hash_api_token t jwt raw
              (write_sessions steps (revoke_session ttl now p reason w).1)).0
  revoke_session-IsRefused p w steps raw c fresh named new done by set live issued later parsed web
        sid sub =
      let within : t < p.session_expiry + ttl.refresh_setting =
        omega (arith, set, live, issued, later) in
      let denied = (Triple-revoke_session ttl now t reason p named within).at w new in
      denied_token p.session_id p.user_id raw c fresh _ parsed web (λ e. named (sym sid ∙ e)) sid
        sub
        (write_sessions-Denied t p.session_id p.user_id steps _ by
          (returned (λ _. Denied t p.session_id p.user_id) tt _ _ done denied))

  -- Where an account's sessions were not all denied before and denying them returned, every web
  -- token of the account with a session id, whenever it was issued, is refused at every time `t`
  -- before twice the lifetime of a refresh token in the settings has gone by, both as an access token and as a
  -- refresh token, after any later denials and prunings, none of them for a time after `t`, whatever
  -- queries the driver fails.
  pub revoke_all_sessions-IsRefused :
      (user_id : String) (w : World) (steps : List (List Bool × SessionWrite)) (raw : Text)
      (c : Claims) (fresh : String)
      → user_id ≢ ""
      → Open (all_sessions_key user_id) w
      → (revoke_all_sessions ttl now user_id reason w).0 ≡ ok tt
      → All (λ s. IsBy t s.1) steps
      → t < now + ttl.refresh_setting * 2
      → jwt.parse t raw ≡ some c
      → has_prefix (txt "certio_") raw ≡ false
      → c.sid ≢ ""
      → c.sub ≡ user_id
      → IsRefused
          (refresh_session jwt ttl t fresh raw
            (write_sessions steps (revoke_all_sessions ttl now user_id reason w).1)).0
        × IsRefused
            (auth hash_api_token t jwt raw
              (write_sessions steps (revoke_all_sessions ttl now user_id reason w).1)).0
  revoke_all_sessions-IsRefused user_id w steps raw c fresh named new done by later parsed web sid
        sub =
      let denied =
        (Triple-revoke_all_sessions ttl now t reason c.sid user_id named later).at w new in
      denied_token c.sid user_id raw c fresh _ parsed web sid refl sub (
        write_sessions-Denied t c.sid user_id steps _ by
          (returned (λ _. Denied t c.sid user_id) tt _ _ done denied))
