-- ===== src/Service/Acme/Ready.antt =====
-- internal/service/acme.go: the step of an order from pending to ready, `refreshOrderStatus`.
use certio.Prelude.{
  ◌≡◌, inl, inr, Bool, true, false, some, String, arith, all, keep, eq_iff, ◌∙◌, subst, sym, ap,
  Bool-cases, str_eq,
}
use certio.Store.{find, find-save, find-key, save}
use certio.Store.Models.{AcmeOrder, AcmeStatus, ready}
use certio.Store.Exec.{World}
use certio.Store.Exec.Triple.{
  Pred, IsStable, Keeps, Triple, Triple-Keeps, Triple-pure, Triple-bind, Triple-of, Triple-weaken,
  Triple-fail_if, Triple-select, Triple-select_first, Triple-write, Triple-try,
}
use certio.Store.Repos.Acme
use certio.Store.Repos.Acme.{order_key, is_of_order}
use certio.Service.Acme.{is_valid, ready_if, refresh_order_status}

abbrev pub is_ready : AcmeStatus → Bool
is_ready ready = true
is_ready _ = false

-- The order of an id, if it is ready, has valid authorizations only.
abbrev pub Proved : String → Pred
Proved id w =
    (o : AcmeOrder)
    → find order_key id w.acme_orders ≡ some o
    → is_ready o.status ≡ true
    → all (λ a. is_valid a.status) (keep (is_of_order id) w.acme_authorizations) ≡ true

proved-IsStable : (id : String) → IsStable (Proved id)
proved-IsStable id = record { faults = λ w fs h. h; audit = λ w log h. h }

module _ (id : String) where
  abbrev Reads : String → AcmeOrder → Pred
  Reads j o w = Proved id w × (find order_key j w.acme_orders ≡ some o)

  -- What is known before an order is made ready.
  abbrev Settled : String → AcmeOrder → Bool → Pred
  Settled j o b w =
      Proved id w
      × (o.id ≡ j)
      × (all (λ a. is_valid a.status) (keep (is_of_order j) w.acme_authorizations) ≡ b)

  settled-IsStable : (j : String) (o : AcmeOrder) (b : Bool) → IsStable (Settled j o b)
  settled-IsStable j o b = record { faults = λ w fs h. h; audit = λ w log h. h }

  reads-IsStable : (j : String) (o : AcmeOrder) → IsStable (Reads j o)
  reads-IsStable j o = record { faults = λ w fs h. h; audit = λ w log h. h }

  make_ready :
      (j : String) (o : AcmeOrder) (w : World)
      → Settled j o true w
      → Proved id
          (record w { acme_orders = save order_key (record o { status = ready }) w.acme_orders })
  make_ready j o w (proved, e, every) o' found is =
      let saved = find-save order_key (record o { status = ready }) w.acme_orders id in
      elim (Bool-cases (str_eq o.id id)) [
        | inl same ↦
            subst
              (λ k.
                all (λ a. is_valid a.status) (keep (is_of_order k) w.acme_authorizations) ≡ true)
              (sym e ∙ (eq_iff o.id id).0 same) every
        | inr other ↦ proved o' (ground (arith)) is
      ]

  Triple-ready_if :
      (j : String) (o : AcmeOrder) (b : Bool)
      → Triple (Proved id) (Settled j o b) (ready_if o b) (λ _. Proved id)
  unfolding Acme.update_order
  Triple-ready_if j o false = Triple-pure tt (λ w h. h.0)
  Triple-ready_if j o true =
      Triple-bind
        (Triple-try _ (Triple-write (settled-IsStable j o true) (λ w h. h.0) _ (make_ready j o)))
        λ _. Triple-pure tt (λ w h. h)

  Triple-refresh_order_status :
      (j : String) → Triple (Proved id) (Proved id) (refresh_order_status j) (λ _. Proved id)
  unfolding refresh_order_status Acme.get_order Acme.authorizations_by_order
  Triple-refresh_order_status j =
      Triple-bind (Triple-select_first (proved-IsStable id) (λ w h. h) _) λ o.
        Triple-bind {Q = λ _. Reads j o}
          (Triple-weaken (λ a w h. h.0) (Triple-fail_if _ _ (λ w h. h.0)))
          λ _. Triple-bind (Triple-select (reads-IsStable j o) (λ w h. h.0) _) λ authzs.
            Triple-of
              (λ w ((proved, found), e). (
                proved,
                find-key order_key j w.acme_orders o found,
                ap (all (λ a. is_valid a.status)) e,
              ))
              (Triple-ready_if j o (all (λ a. is_valid a.status) authzs))

-- If a ready order has valid authorizations only, that is so after the status of any order is
-- refreshed, whatever queries the driver fails: an order becomes ready only where all its
-- authorizations are valid.
pub refresh_order_status-Proved : (id j : String) → Keeps (Proved id) (refresh_order_status j)
refresh_order_status-Proved id j = Triple-Keeps (Triple-refresh_order_status id j)
