-- ===== src/Service/Issuance/Lookups.antt =====
-- internal/service/service.go: the rows that `LoadCA` reads an authority and its chain from.
use certio.Prelude.{
  ℕ, zero, suc, ◌≡◌, subst, ◌⊎◌, inl, inr, List, [], ◌∷◌, ◌++◌, Option, none, some, String, first,
  Option-cases,
}
use certio.Text.{Text, txt, text_eq}
use certio.Store.{find}
use certio.Store.Models.{Authority}
use certio.Store.Exec.{Result, ok, err, not_found, select_first}
use certio.Store.Exec.Triple.{
  Anything, Pred, Post, IsStable, Triple, Triple-pure, Triple-fail, Triple-fail_if, Triple-fact,
  Triple-bind, Triple-of, Triple-weaken, Triple-select_first, Triple-try_result,
}
use certio.Store.Repos.{authority_key}
use certio.Store.Repos.Authorities
use certio.Service.Auth.Factor.{Triple-anything}
use certio.Service.Crl.Steps.{Triple-or_fail}
use certio.Service.Loading.{load_ca, open_sealed_key, parse_each}
use certio.Service.Issuance.{Provider, keyring}

-- The authority that an identifier or a slug names.
abbrev pub Names : List Authority → String → Authority → Type 0
Names rows id a =
    (find authority_key id rows ≡ some a) ⊎ (first (λ a. text_eq a.slug (txt id)) rows ≡ some a)

abbrev pub Table : List Authority → Pred
Table rows w = w.authorities ≡ rows

table-IsStable : (rows : List Authority) → IsStable (Table rows)
table-IsStable rows = record { faults = λ w fs h. h; audit = λ w log h. h }

Triple-first :
    (rows : List Authority) (f : List Authority → Option Authority)
    → Triple
        (Table rows)
        (Table rows)
        (select_first (λ w. f w.authorities))
        (λ a w. Table rows w × (f rows ≡ some a))
Triple-first rows f =
    Triple-weaken (λ a w h. (h.0, subst (λ l. f l ≡ some a) h.0 h.1))
      (Triple-select_first (table-IsStable rows) (λ w h. h) (λ w. f w.authorities))

pub Triple-resolve :
    (rows : List Authority) (id : String)
    → Triple
        (Table rows)
        (Table rows)
        (Authorities.resolve id)
        (λ a w. Table rows w × Names rows id a)
unfolding Authorities.resolve Authorities.get Authorities.get_by_slug
Triple-resolve rows id =
    Triple-bind (Triple-try_result _ (Triple-first rows (find authority_key id))) λ r. found r
  where
    found :
        (r : Result Authority)
        → Triple
            (Table rows)
            (λ w.
              Post (Table rows) (λ a w. Table rows w × (find authority_key id rows ≡ some a)) r w)
            (Authorities.or_by_slug id r)
            (λ a w. Table rows w × Names rows id a)
    found (ok a) = Triple-pure a (λ w h. (h.0, inl h.1))
    found (err not_found) =
        Triple-weaken (λ a w h. (h.0, inr h.1))
          (Triple-first rows (first (λ a. text_eq a.slug (txt id))))
    found (err _) = Triple-fail _ (λ w h. h)

pub Triple-get :
    (rows : List Authority) (id : String)
    → Triple Anything
        (Table rows)
        (Authorities.get id)
        (λ a w. Table rows w × (find authority_key id rows ≡ some a))
unfolding Authorities.get
Triple-get rows id = Triple-anything (λ a w h. h) (Triple-first rows (find authority_key id))

pub Triple-chain_from :
    (rows : List Authority) (rounds : ℕ) (chain : List Authority) (a : Authority)
    → Triple Anything (Table rows) (Authorities.chain_from rounds chain a) (λ _. Table rows)
unfolding Authorities.chain_from
Triple-chain_from rows zero chain a = Triple-fail _ (λ w h. tt)
Triple-chain_from rows (suc rounds) chain a = elim (Option-cases a.parent_id) [
  | inl e ↦ rw e (Triple-pure chain (λ w h. h))
  | inr (parent_id, e) ↦ rw e (
      Triple-bind (Triple-get rows parent_id) λ parent.
        Triple-of (λ w h. h.0) (Triple-chain_from rows rounds (chain ++ parent ∷ []) parent))
]

module _ (provider : Provider) (rows : List Authority) where
  open provider use {x509, parse_certificate, open_key}
  open x509 use {PrivateKey}

  Triple-parse_each :
      (chain : List Authority)
      → Triple Anything (Table rows) (parse_each (keyring provider) chain) (λ _. Table rows)
  unfolding parse_each
  Triple-parse_each [] = Triple-pure [] (λ w h. h)
  Triple-parse_each (a ∷ chain) = Triple-bind (Triple-or_fail _ _) λ parent.
      Triple-of (λ w h. h.0)
        (Triple-bind (Triple-parse_each chain) λ parents. Triple-pure _ (λ w h. h))

  -- The keyring opens the key of a row with the passphrase.
  abbrev pub Opens : Option Text → Text → PrivateKey → Type 0
  Opens none passphrase key = ⊥
  Opens (some sealed) passphrase key = open_key sealed passphrase ≡ some key

  Triple-open_sealed_key :
      (sealed : Option Text) (passphrase : Text)
      → Triple Anything
          (Table rows)
          (open_sealed_key (keyring provider) sealed passphrase)
          (λ key w. Table rows w × Opens sealed passphrase key)
  Triple-open_sealed_key none passphrase = Triple-fail _ (λ w h. tt)
  Triple-open_sealed_key (some sealed) passphrase = Triple-or_fail _ _

  pub Triple-load_ca :
      (a : Authority) (passphrase : Text)
      → Triple Anything (Table rows) (load_ca (keyring provider) a passphrase) (λ (cert, key) w.
        Table rows w × (parse_certificate a.cert_pem ≡ some cert) × Opens a.key passphrase key)
  unfolding load_ca Authorities.chain
  Triple-load_ca a passphrase = Triple-bind (Triple-fail_if _ _ (λ w h. tt)) λ _.
      Triple-bind (Triple-or_fail _ _) λ cert.
        Triple-fact {F = parse_certificate a.cert_pem ≡ some cert} (λ w h. h.1)
          λ parsed.
            Triple-of (λ w h. h.0.0)
              (Triple-bind (Triple-open_sealed_key a.key passphrase) λ key.
                Triple-fact {F = Opens a.key passphrase key} (λ w h. h.1)
                  λ opened.
                    Triple-of (λ w h. h.0)
                      (Triple-bind (Triple-chain_from rows 16 [] a) λ chain.
                        Triple-bind (Triple-parse_each chain)
                          λ _. Triple-pure _ (λ w h. (h, parsed, opened))))
