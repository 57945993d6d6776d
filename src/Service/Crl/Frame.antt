-- ===== src/Service/Crl/Frame.antt =====
-- internal/service/authority.go: `GenerateCRL` and the tables that it does not write.
use certio.Prelude.{
  ℕ, zero, suc, ◌++◌, [], ◌∷◌, inl, inr, Option-cases, Bool, List, Option, none, some, String,
}
use certio.Text.{Text}
use certio.Store.Models.{Authority, Certificate, Revocation}
use certio.Store.Exec.{Err, Result, ok, err, Exec, not_found}
use certio.Store.Exec.Triple.{
  Triple-fail_if, Pred, IsStable, Triple, Triple-pure, Triple-fail, Triple-bind, Triple-if,
  Triple-weaken, Triple-try, Triple-select, Triple-select_first, Triple-write, Triple-record_audit,
}
use certio.Store.Repos.Authorities
use certio.Store.Repos.Revocations
use certio.Service.Loading.{Keyring, or_fail, load_ca, parse_each, open_sealed_key}
use certio.Service.Crl.{Engine, generate_crl, publish}

-- A predicate on the tables of certificates and revocations.
abbrev pub Tables : Type 1
Tables = List Certificate → List Revocation → Type 0

abbrev pub on : Tables → Pred
on P w = P w.certificates w.revocations

pub on-IsStable : (P : Tables) → IsStable (on P)
on-IsStable P = record { faults = λ w fs h. h; audit = λ w log h. h }

module _ (P : Tables) where
  abbrev Stays : {A : Type 0} → Exec A → Type 0
  Stays m = Triple (on P) (on P) m (λ _. on P)

  Stays-get : (id : String) → Stays (Authorities.get id)
  unfolding Authorities.get
  Stays-get id = Triple-weaken (λ a w h. h.0) (Triple-select_first (on-IsStable P) (λ w h. h) _)

  Stays-or_by_slug : (slug : String) (r : Result Authority) → Stays (Authorities.or_by_slug slug r)
  unfolding Authorities.get_by_slug
  Stays-or_by_slug slug (ok a) = Triple-pure a (λ w h. h)
  Stays-or_by_slug slug (err not_found) =
      Triple-weaken (λ a w h. h.0) (Triple-select_first (on-IsStable P) (λ w h. h) _)
  Stays-or_by_slug slug (err _) = Triple-fail _ (λ w h. h)

  Stays-resolve : (id : String) → Stays (Authorities.resolve id)
  unfolding Authorities.resolve
  Stays-resolve id = Triple-bind (Triple-try _ (Stays-get id)) (λ r. Stays-or_by_slug id r)

  Stays-or_fail : {A : Type 0} (e : Err) (o : Option A) → Stays (or_fail e o)
  Stays-or_fail e none = Triple-fail e (λ w h. h)
  Stays-or_fail e (some a) = Triple-pure a (λ w h. h)

  Stays-chain_from :
      (rounds : ℕ) (chain : List Authority) (a : Authority)
      → Stays (Authorities.chain_from rounds chain a)
  unfolding Authorities.chain_from
  Stays-chain_from zero chain a = Triple-fail _ (λ w h. h)
  Stays-chain_from (suc rounds) chain a = elim (Option-cases a.parent_id) [
    | inl e ↦ rw e (Triple-pure chain (λ w h. h))
    | inr (parent_id, e) ↦ rw e (
        Triple-bind (Stays-get parent_id)
          λ parent. Stays-chain_from rounds (chain ++ parent ∷ []) parent)
  ]

  module _ (keyring : Keyring) where
    Stays-parse_each : (chain : List Authority) → Stays (parse_each keyring chain)
    unfolding parse_each
    Stays-parse_each [] = Triple-pure [] (λ w h. h)
    Stays-parse_each (a ∷ chain) =
        Triple-bind (Stays-or_fail _ _)
          λ parent. Triple-bind (Stays-parse_each chain) λ parents. Triple-pure _ (λ w h. h)

    Stays-open_sealed_key :
        (sealed : Option Text) (passphrase : Text)
        → Stays (open_sealed_key keyring sealed passphrase)
    Stays-open_sealed_key none passphrase = Triple-fail _ (λ w h. h)
    Stays-open_sealed_key (some sealed) passphrase = Stays-or_fail _ _

    Stays-load_ca : (a : Authority) (passphrase : Text) → Stays (load_ca keyring a passphrase)
    unfolding load_ca Authorities.chain
    Stays-load_ca a passphrase =
        Triple-bind {Q = λ _. on P} (Triple-weaken (λ _ w h. h.0) (Triple-fail_if _ _ (λ w h. h)))
          λ _. Triple-bind (Stays-or_fail _ _) λ cert.
            Triple-bind (Stays-open_sealed_key a.key passphrase) λ key.
              Triple-bind (Stays-chain_from 16 [] a)
                λ chain. Triple-bind (Stays-parse_each chain) λ _. Triple-pure _ (λ w h. h)

  module _ (engine : Engine) (now validity : ℕ) where
    Stays-generate_crl :
        (id : String) (passphrase : Text) → Stays (generate_crl engine now validity id passphrase)
    unfolding generate_crl Authorities.update Revocations.by_authority
    Stays-generate_crl id passphrase = Triple-bind (Stays-resolve id) λ row.
        Triple-bind (Stays-load_ca engine.keyring row passphrase) λ ca.
          Triple-bind (Triple-weaken (λ a w h. h.0) (Triple-select (on-IsStable P) (λ w h. h) _))
            λ revs. Triple-bind (Stays-or_fail _ _) λ der.
              Triple-bind (Triple-write (on-IsStable P) (λ w h. h) _ (λ w h. h)) λ _.
                Triple-bind (Triple-record_audit (on-IsStable P) _ _)
                  λ _. Triple-pure der (λ w h. h)

    pub Stays-publish :
        {I : Pred} (skip : Bool) (ca : Authority) (passphrase : Text)
        → Triple I (on P) (publish engine now validity skip ca passphrase) (λ _. on P)
    unfolding publish
    Stays-publish skip ca passphrase =
        Triple-if _ _ _
          (λ _.
            Triple-bind (Triple-try _ (Stays-generate_crl ca.id passphrase))
              λ _. Triple-pure tt (λ w h. h))
          (λ _. Triple-pure tt (λ w h. h))
