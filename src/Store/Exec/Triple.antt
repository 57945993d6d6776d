-- ===== src/Store/Exec/Triple.antt =====
-- What an action leads to from a database that meets a precondition, whatever queries the driver
-- fails: `Triple I P m Q` says that `m` ends in `Q` if it returns and in `I` if it fails. One rule
-- for each way to build an action.
use certio.Prelude.{
  ◌≡◌, refl, Bool, true, false, [], ◌∷◌, List, Option, none, some, String, if◌then◌else◌,
  Bool-cases, inl, inr,
}
use certio.Store.Exec.{
  Err, Result, ok, err, World, Exec, Action, Entry, pure, fail, fail_if, query, try, continue,
  ◌>>=◌, select, select_first, write, write_if, record_audit, or_not_found, audit_entry,
}

abbrev pub Pred : Type 1
Pred = World → Type 0

-- The predicate looks neither at the schedule of faults nor at the audit log.
pub record IsStable (P : Pred) : Type 0 where
  pub faults : (w : World) (fs : List Bool) → P w → P (record w { faults = fs })
  pub audit : (w : World) (log : List Entry) → P w → P (record w { audit = log })

abbrev pub Post : {A : Type 0} → Pred → (A → Pred) → Result A → Pred
Post I Q (ok a) w = Q a w
Post I Q (err e) w = I w

pub record Triple (I P : Pred) {A : Type 0} (m : Exec A) (Q : A → Pred) : Type 0 where
  pub at : (w : World) → P w → Post I Q (m w).0 (m w).1

-- An action keeps an invariant, whether it returns or fails.
pub record Keeps (I : Pred) {A : Type 0} (m : Exec A) : Type 0 where
  pub at : (w : World) → I w → I (m w).1

Post-same : (I : Pred) {A : Type 0} (r : Result A) (w : World) → Post I (λ _. I) r w → I w
Post-same I (ok a) w h = h
Post-same I (err e) w h = h

Post-weaken :
    (I : Pred) {A : Type 0} (Q R : A → Pred) (r : Result A) (w : World)
    → ((a : A) (w : World) → Q a w → R a w)
    → Post I Q r w
    → Post I R r w
Post-weaken I Q R (ok a) w k h = k a w h
Post-weaken I Q R (err e) w k h = h

module _ {I P : Pred} {A : Type 0} where
  pub Triple-pure : {Q : A → Pred} (a : A) → ((w : World) → P w → Q a w) → Triple I P (pure a) Q
  unfolding pure
  Triple-pure a k = record { at = k }

  pub Triple-fail : {Q : A → Pred} (e : Err) → ((w : World) → P w → I w) → Triple I P (fail e) Q
  unfolding fail
  Triple-fail e k = record { at = k }

  pub Triple-if :
      {Q : A → Pred} (b : Bool) (m n : Exec A)
      → (b ≡ true → Triple I P m Q)
      → (b ≡ false → Triple I P n Q)
      → Triple I P (if b then m else n) Q
  Triple-if true m n km kn = km refl
  Triple-if false m n km kn = kn refl

  -- A stronger precondition.
  pub Triple-of :
      {P' : Pred} {Q : A → Pred} {m : Exec A}
      → ((w : World) → P' w → P w)
      → Triple I P m Q
      → Triple I P' m Q
  Triple-of k t = record { at = λ w h. t.at w (k w h) }

  -- A weaker postcondition.
  pub Triple-weaken :
      {Q R : A → Pred} {m : Exec A}
      → ((a : A) (w : World) → Q a w → R a w)
      → Triple I P m Q
      → Triple I P m R
  Triple-weaken {Q = Q} {R = R} {m = m} k t = record {
    at = λ w h. Post-weaken I Q R (m w).0 (m w).1 k (t.at w h);
  }

  -- What the precondition says of values alone may be used to prove the triple.
  pub Triple-fact :
      {F : Type 0} {Q : A → Pred} {m : Exec A}
      → ((w : World) → P w → F)
      → (F → Triple I P m Q)
      → Triple I P m Q
  Triple-fact k t = record { at = λ w h. (t (k w h)).at w h }

  -- Of an action whose error the caller looks at.
  pub Triple-try : {J : Pred} (m : Exec A) → Triple J P m (λ _. J) → Triple I P (try m) (λ _. J)
  unfolding try
  Triple-try {J = J} m t = record { at = λ w h. Post-same J (m w).0 (m w).1 (t.at w h) }

module _ {I P J : Pred} {A : Type 0} where
  pub Triple-try_result :
      {Q : A → Pred} (m : Exec A) → Triple J P m Q → Triple I P (try m) (λ r w. Post J Q r w)
  unfolding try
  Triple-try_result m t = record { at = t.at }

pub Triple-Keeps : {I : Pred} {A : Type 0} {m : Exec A} → Triple I I m (λ _. I) → Keeps I m
Triple-Keeps {I = I} {m = m} t = record { at = λ w h. Post-same I (m w).0 (m w).1 (t.at w h) }

Triple-continue :
    (I : Pred) {A B : Type 0} (Q : A → Pred) (R : B → Pred) (r : Result A) (f : A → Exec B)
    (w : World)
    → Post I Q r w
    → ((a : A) → Triple I (Q a) (f a) R)
    → Post I R (continue r f w).0 (continue r f w).1
Triple-continue I Q R (ok a) f w h k = (k a).at w h
Triple-continue I Q R (err e) f w h k = h

module _ {I P : Pred} {A B : Type 0} where
  pub Triple-bind :
      {Q : A → Pred} {R : B → Pred} {m : Exec A} {f : A → Exec B}
      → Triple I P m Q
      → ((a : A) → Triple I (Q a) (f a) R)
      → Triple I P (m >>= f) R
  unfolding ◌>>=◌
  Triple-bind {Q = Q} {R = R} {m = m} {f = f} t k = record {
    at = λ w h. let (r, w') = m w in Triple-continue I Q R r f w' (t.at w h) k;
  }

module _ {I P : Pred} (stable : IsStable P) (weak : (w : World) → P w → I w) where
  query-at :
      {A : Type 0} {Q : A → Pred} (m : Exec A)
      → Triple I P m Q
      → (w : World) (fs : List Bool) → w.faults ≡ fs
      → P w
      → Post I Q (query m w).0 (query m w).1
  unfolding query
  query-at m t w [] e h = rw (e, query) (t.at w h)
  query-at m t w (true ∷ fs) e h = rw (e, query) (weak _ (stable.faults w fs h))
  query-at m t w (false ∷ fs) e h = rw (e, query) (t.at _ (stable.faults w fs h))

  pub Triple-query :
      {A : Type 0} {Q : A → Pred} (m : Exec A) → Triple I P m Q → Triple I P (query m) Q
  Triple-query m t = record { at = λ w h. query-at m t w w.faults refl h }

  pub Triple-select : {A : Type 0} (f : World → A) → Triple I P (select f) (λ a w. P w × (f w ≡ a))
  unfolding select
  Triple-select f = Triple-query _ (record { at = λ w h. (h, refl) })

  first-at :
      {A : Type 0} (f : World → Option A) (w : World) (o : Option A)
      → f w ≡ o
      → P w
      → Post I (λ a w. P w × (f w ≡ some a)) (or_not_found o) w
  first-at f w none e h = weak w h
  first-at f w (some a) e h = (h, e)

  pub Triple-select_first :
      {A : Type 0} (f : World → Option A)
      → Triple I P (select_first f) (λ a w. P w × (f w ≡ some a))
  unfolding select_first
  Triple-select_first f = Triple-query _ (record { at = λ w h. first-at f w (f w) refl h })

  pub Triple-write :
      {Q : Unit {0} → Pred} (f : World → World)
      → ((w : World) → P w → Q tt (f w))
      → Triple I P (write f) Q
  unfolding write
  Triple-write f k = Triple-query _ (record { at = k })

  pub Triple-write_if :
      {Q : Unit {0} → Pred} (test : World → Bool) (e : Err) (f : World → World)
      → ((w : World) → test w ≡ true → P w → Q tt (f w))
      → Triple I P (write_if test e f) Q
  unfolding write_if
  Triple-write_if test e f k = Triple-query _ (record {
    at = λ w h. elim (Bool-cases (test w)) [
      | inl done ↦ rw done (k w done h)
      | inr refused ↦ rw refused (weak w h)
    ];
  })

audit-at :
    {P : Pred} (stable : IsStable P) (entry : Entry) (w : World)
    → P w
    → P (write (audit_entry entry) w).1
audit-at stable entry w h =
    (Triple-Keeps
        (Triple-write stable (λ _ h. h) (audit_entry entry) (λ w h. stable.audit w _ h))).at
      w h

module _ {I P : Pred} (stable : IsStable P) where
  pub Triple-record_audit :
      (action : Action) (id : String) → Triple I P (record_audit action id) (λ _. P)
  unfolding record_audit
  Triple-record_audit action id = record { at = λ w h. audit-at stable _ w h }

pub Triple-fail_if :
    {I P : Pred} (b : Bool) (e : Err)
    → ((w : World) → P w → I w)
    → Triple I P (fail_if b e) (λ _ w. P w × (b ≡ false))
unfolding fail_if
Triple-fail_if true e weak = record { at = weak }
Triple-fail_if false e weak = record { at = λ w h. (h, refl) }

-- Nothing is claimed of an action that fails.
abbrev pub Anything : Pred
Anything w = Unit

Post-known : {A : Type 0} (F : Type 0) (r : Result A) (w : World) → F → Post Anything (λ _ _. F) r w
Post-known F (ok a) w h = h
Post-known F (err e) w h = tt

-- What is known of values alone is kept by any action.
pub Triple-known : {A : Type 0} (F : Type 0) (m : Exec A) → Triple Anything (λ _. F) m (λ _ _. F)
Triple-known F m = record { at = λ w h. Post-known F (m w).0 (m w).1 h }
