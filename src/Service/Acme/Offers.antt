-- ===== src/Service/Acme/Offers.antt =====
-- internal/service/acme.go: which challenges `createChallenges` offers.
use certio.Prelude.{
  ◌≡◌, Bool, true, false, ◌&&◌, List, [], ◌∷◌, String, str_eq, arith, any, any-append,
}
use certio.Store.Models.{AcmeAuthorization, AcmeChallenge, ChallengeType, http_01, dns_01}
use certio.Store.Exec.Triple.{
  Pred, IsStable, Triple, Triple-pure, Triple-bind, Triple-of, Triple-fail_if, Triple-write_if,
}
use certio.Store.Repos.Acme
use certio.Service.Acme.Orders.{
  AcmeConfig, challenge_types, create_each, create_challenges, offered,
}

abbrev pub is_http : ChallengeType → Bool
is_http http_01 = true
is_http dns_01 = false

-- The challenge is over http and of this authorization.
abbrev pub is_http_of : String → AcmeChallenge → Bool
is_http_of id c = str_eq c.authorization_id id && is_http c.type

abbrev pub HttpFree : String → Pred
HttpFree id w = any (is_http_of id) w.acme_challenges ≡ false

http_free-IsStable : (id : String) → IsStable (HttpFree id)
http_free-IsStable id = record { faults = λ w fs h. h; audit = λ w log h. h }

wildcard-challenge_types : (config : AcmeConfig) → any is_http (challenge_types config true) ≡ false
unfolding challenge_types
wildcard-challenge_types config = ground arith

Triple-create_each :
    (authz : AcmeAuthorization) (types : List ChallengeType)
    (fresh : ChallengeType → String × String)
    → any is_http types ≡ false
    → Triple
        (HttpFree authz.id)
        (HttpFree authz.id)
        (create_each authz types fresh)
        (λ _. HttpFree authz.id)
unfolding create_each Acme.create_challenge
Triple-create_each authz [] fresh h = Triple-pure tt (λ w k. k)
Triple-create_each authz (t ∷ types) fresh h =
    Triple-bind
      (Triple-write_if (http_free-IsStable authz.id) (λ w k. k) _ _ _
        (λ w _ k. ground (
          arith,
          any-append (is_http_of authz.id) w.acme_challenges (offered authz t (fresh t) ∷ []),
        )))
      λ _. Triple-create_each authz types fresh (ground arith)

-- The challenges that are created for the authorization of a wildcard have no http-01 among them,
-- whatever is enabled and whatever queries the driver fails.
create_challenges-wildcard :
    (config : AcmeConfig) (authz : AcmeAuthorization) (fresh : ChallengeType → String × String)
    → authz.wildcard ≡ true
    → Triple
        (HttpFree authz.id)
        (HttpFree authz.id)
        (create_challenges config authz fresh)
        (λ _. HttpFree authz.id)
unfolding create_challenges
create_challenges-wildcard config authz fresh is = Triple-bind (Triple-fail_if _ _ (λ w k. k)) λ _.
    Triple-of (λ w h. h.0)
      (Triple-create_each authz _ fresh (rw is (wildcard-challenge_types config)))
