-- ===== src/Service/Crl/Steps.antt =====
-- internal/service: what a step leads to that needs a result of the keyring or of crypto/x509.
use certio.Prelude.{◌≡◌, refl, Option, none, some}
use certio.Store.Exec.{Err}
use certio.Store.Exec.Triple.{Pred, Triple, Triple-pure, Triple-fail, Anything}
use certio.Service.Loading.{or_fail}

module _ {A : Type 0} where
  pub Triple-or_fail :
      {P : Pred} (e : Err) (o : Option A)
      → Triple Anything P (or_fail e o) (λ a w. P w × (o ≡ some a))
  Triple-or_fail e none = Triple-fail e (λ w h. tt)
  Triple-or_fail e (some a) = Triple-pure a (λ w h. (h, refl))
