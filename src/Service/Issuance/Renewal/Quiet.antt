-- ===== src/Service/Issuance/Renewal/Quiet.antt =====
-- internal/service/service.go: an authority is loaded without a change of the certificates.
use certio.Service.Loading.{or_fail, load_ca, parse_each, open_sealed_key}
use certio.Prelude.{ℕ, zero, suc, List, [], ◌∷◌, ◌++◌, Option, none, some, String}
use certio.Text.{Text}
use certio.Store.Models.{Authority}
use certio.Store.Exec.{Err, Exec, pure, ◌>>=◌}
use certio.Store.Exec.Quiet.{
  IsQuiet, pure-IsQuiet, fail-IsQuiet, select_first-IsQuiet, fail_if-IsQuiet, bind-IsQuiet,
}
use certio.Store.Repos.Authorities
use certio.Store.Repos.Authorities.{chain, chain_from}
use certio.Service.Issuance.{Provider, keyring}

module _ {A : Type 0} where
  pub or_fail-IsQuiet : (e : Err) (o : Option A) → IsQuiet (or_fail e o)
  or_fail-IsQuiet e none = fail-IsQuiet e
  or_fail-IsQuiet e (some a) = pure-IsQuiet a

chain_step-IsQuiet :
    (found : List Authority) (rest : Authority → Exec (List Authority)) (parent : Option String)
    → ((a : Authority) → IsQuiet (rest a))
    → IsQuiet
        (elim parent [ none ↦ pure found | some id ↦ do parent ← Authorities.get id; rest parent ])
unfolding Authorities.get
chain_step-IsQuiet found rest none quiet = pure-IsQuiet found
chain_step-IsQuiet found rest (some id) quiet = bind-IsQuiet (select_first-IsQuiet _) quiet

chain_from-IsQuiet :
    (rounds : ℕ) (found : List Authority) (a : Authority) → IsQuiet (chain_from rounds found a)
unfolding chain_from
chain_from-IsQuiet zero found a = fail-IsQuiet _
chain_from-IsQuiet (suc rounds) found a =
    chain_step-IsQuiet found (λ parent. chain_from rounds (found ++ parent ∷ []) parent) a.parent_id
      (λ parent. chain_from-IsQuiet rounds (found ++ parent ∷ []) parent)

module _ (provider : Provider) where
  parse_each-IsQuiet : (rows : List Authority) → IsQuiet (parse_each (keyring provider) rows)
  unfolding parse_each
  parse_each-IsQuiet [] = pure-IsQuiet _
  parse_each-IsQuiet (a ∷ rows) =
      bind-IsQuiet (or_fail-IsQuiet _ _)
        λ parent. bind-IsQuiet (parse_each-IsQuiet rows) λ parents. pure-IsQuiet _

  pub open_sealed_key-IsQuiet :
      (key : Option Text) (passphrase : Text)
      → IsQuiet (open_sealed_key (keyring provider) key passphrase)
  open_sealed_key-IsQuiet none passphrase = fail-IsQuiet _
  open_sealed_key-IsQuiet (some sealed) passphrase = or_fail-IsQuiet _ _

  pub load_ca-IsQuiet :
      (a : Authority) (passphrase : Text) → IsQuiet (load_ca (keyring provider) a passphrase)
  unfolding load_ca chain
  load_ca-IsQuiet a passphrase = bind-IsQuiet (fail_if-IsQuiet _ _) λ _.
      bind-IsQuiet (or_fail-IsQuiet _ _) λ cert.
        bind-IsQuiet (open_sealed_key-IsQuiet a.key passphrase) λ key.
          bind-IsQuiet (chain_from-IsQuiet 16 [] a)
            λ rows. bind-IsQuiet (parse_each-IsQuiet rows) λ _. pure-IsQuiet _
