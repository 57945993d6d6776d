-- ===== src/Store/Exec/Quiet.antt =====
-- Actions that leave the table of certificates as it is, and what is known of that table where a flag
-- says that the driver fails no query.
use certio.Prelude.{
  ◌≡◌, refl, sym, subst, ◌∙◌, Bool, true, false, List, [], ◌∷◌, Option, none, some, String,
  Bool-cases, inl, inr, if◌then◌else◌,
}
use certio.Store.Models.{Certificate}
use certio.Store.Exec.{
  Err, Result, ok, err, World, Exec, Action, pure, fail, fail_if, query, try, select_first, write,
  write_if, record_audit, or_not_found, audit_entry, continue, ◌>>=◌,
}
use certio.Store.Exec.Triple.{Pred, Post, Triple, Anything}

-- The table is left as it is, and no query begins to fail.
pub record IsQuiet {A : Type 0} (m : Exec A) : Type 0 where
  pub at : (w : World) → (m w).1.certificates ≡ w.certificates
  pub calm : (w : World) → w.faults ≡ [] → (m w).1.faults ≡ []

-- What is known of the table, and of the queries to come.
abbrev pub On : Bool → (List Certificate → Type 0) → Pred
On calm T w = T w.certificates × (calm ≡ true → w.faults ≡ [])

module _ {A : Type 0} where
  pub pure-IsQuiet : (a : A) → IsQuiet (pure a)
  unfolding pure
  pure-IsQuiet a = record { at = λ w. refl; calm = λ w h. h }

  pub fail-IsQuiet : (e : Err) → IsQuiet {A = A} (fail e)
  unfolding fail
  fail-IsQuiet e = record { at = λ w. refl; calm = λ w h. h }

  query_at :
      (f : World → Result A) (w : World) (fs : List Bool)
      → w.faults ≡ fs
      → (query (λ w. (f w, w)) w).1.certificates ≡ w.certificates
  unfolding query
  query_at f w [] e = rw (e, query) refl
  query_at f w (true ∷ fs) e = rw (e, query) refl
  query_at f w (false ∷ fs) e = rw (e, query) refl

  query_calm :
      (f : World → Result A) (w : World) → w.faults ≡ [] → (query (λ w. (f w, w)) w).1.faults ≡ []
  unfolding query
  query_calm f w e = rw (e, query) e

  pub select_first-IsQuiet : (f : World → Option A) → IsQuiet (select_first f)
  unfolding select_first
  select_first-IsQuiet f = record {
    at = λ w. query_at (λ w. or_not_found (f w)) w w.faults refl;
    calm = query_calm (λ w. or_not_found (f w));
  }

  quiet_post :
      (calm : Bool) (T : List Certificate → Type 0) (r : Result A) (w w' : World)
      → w'.certificates ≡ w.certificates
      → (w.faults ≡ [] → w'.faults ≡ [])
      → On calm T w
      → Post Anything (λ _. On calm T) r w'
  quiet_post calm T (ok a) w w' same still (h, none_fails) =
      (subst T (sym same) h, λ e. still (none_fails e))
  quiet_post calm T (err e) w w' same still h = tt

  -- What is known of the table is still so.
  pub Triple-IsQuiet :
      (calm : Bool) (T : List Certificate → Type 0) (m : Exec A)
      → IsQuiet m
      → Triple Anything (On calm T) m (λ _. On calm T)
  Triple-IsQuiet calm T m q = record {
    at = λ w h. quiet_post calm T (m w).0 w (m w).1 (q.at w) (q.calm w) h;
  }

  pub try-IsQuiet : (m : Exec A) → IsQuiet m → IsQuiet (try m)
  unfolding try
  try-IsQuiet m q = record { at = q.at; calm = q.calm }

audit_at :
    (f : World → World) (w : World) (fs : List Bool)
    → w.faults ≡ fs
    → ((w : World) → (f w).certificates ≡ w.certificates)
    → (write f w).1.certificates ≡ w.certificates
unfolding write query
audit_at f w [] e same = rw (e, query) (same w)
audit_at f w (true ∷ fs) e same = rw (e, query) refl
audit_at f w (false ∷ fs) e same = rw (e, query) (same _)

pub record_audit-IsQuiet : (action : Action) (id : String) → IsQuiet (record_audit action id)
unfolding record_audit write query
record_audit-IsQuiet action id = record {
  at = λ w.
      audit_at (audit_entry (record { action = action; resource_id = id })) w w.faults refl
        (λ w. refl);
  calm = λ w h. rw (h, query) h;
}

pub fail_if-IsQuiet : (b : Bool) (e : Err) → IsQuiet (fail_if b e)
unfolding fail_if
fail_if-IsQuiet true e = record { at = λ w. refl; calm = λ w h. h }
fail_if-IsQuiet false e = record { at = λ w. refl; calm = λ w h. h }

continue_quiet :
    {A B : Type 0} (f : A → Exec B) (r : Result A) (w : World)
    → ((a : A) → IsQuiet (f a))
    → ((continue r f w).1.certificates ≡ w.certificates)
      × (w.faults ≡ [] → (continue r f w).1.faults ≡ [])
continue_quiet f (ok a) w q = ((q a).at w, (q a).calm w)
continue_quiet f (err e) w q = (refl, λ h. h)

pub bind-IsQuiet :
    {A B : Type 0} {m : Exec A} {f : A → Exec B}
    → IsQuiet m
    → ((a : A) → IsQuiet (f a))
    → IsQuiet (m >>= f)
unfolding ◌>>=◌
bind-IsQuiet {m = m} {f = f} q k = record {
  at = λ w. (continue_quiet f (m w).0 (m w).1 k).0 ∙ q.at w;
  calm = λ w h. (continue_quiet f (m w).0 (m w).1 k).1 (q.calm w h);
}

no_query : {A : Type 0} (fs : List Bool) (b : Bool) → b ∷ fs ≡ [] → A
no_query fs b e = absurd (cc)

failing : (calm : Bool) (fs : List Bool) (b : Bool) → (calm ≡ true → b ∷ fs ≡ []) → calm ≡ false
failing true fs b h = no_query fs b (h refl)
failing false fs b h = refl

-- A query: the driver fails it only where the flag does not say otherwise.
module _ {I : Pred} {A : Type 0} (calm : Bool) (T : List Certificate → Type 0)
    (weak : (w : World) → T w.certificates → calm ≡ false → I w) where
  query_on :
      {Q : A → Pred} (m : Exec A)
      → Triple I (On calm T) m Q
      → (w : World) (fs : List Bool) → w.faults ≡ fs
      → On calm T w
      → Post I Q (query m w).0 (query m w).1
  unfolding query
  query_on m t w [] e h = rw (e, query) (t.at w h)
  query_on m t w (true ∷ fs) e (h, none_fails) =
      rw (e, query) (weak _ h (failing calm fs true (λ c. sym e ∙ none_fails c)))
  query_on m t w (false ∷ fs) e (h, none_fails) =
      rw (e, query) (t.at _ (h, λ c. no_query fs false (sym e ∙ none_fails c)))

  first_on :
      (f : World → Option A) (w : World) (o : Option A)
      → f w ≡ o
      → On calm T w
      → I w
      → Post I (λ a w. On calm T w × (f w ≡ some a)) (or_not_found o) w
  first_on f w none e h missing = missing
  first_on f w (some a) e h missing = (h, e)

  pub Triple-select_first_on :
      (f : World → Option A)
      → ((w : World) → T w.certificates → I w)
      → Triple I (On calm T) (select_first f) (λ a w. On calm T w × (f w ≡ some a))
  unfolding select_first
  Triple-select_first_on f missing = record {
    at = λ w h.
        query_on (λ w. (or_not_found (f w), w))
          (record { at = λ w h. first_on f w (f w) refl h (missing w h.0) }) w w.faults refl h;
  }

module _ {I : Pred} (calm : Bool) (T : List Certificate → Type 0)
    (weak : (w : World) → T w.certificates → calm ≡ false → I w) where
  pub Triple-write_if_on :
      {Q : Unit {0} → Pred} (test : World → Bool) (e : Err) (f : World → World)
      → ((w : World) → test w ≡ true → On calm T w → Q tt (f w))
      → ((w : World) → test w ≡ false → On calm T w → I w)
      → Triple I (On calm T) (write_if test e f) Q
  unfolding write_if
  Triple-write_if_on {Q} test e f done refused = record {
    at = λ w h.
        query_on calm T weak (λ w. if test w then (ok tt, f w) else (err e, w))
          (record {
            at = λ w h. elim (Bool-cases (test w)) [
              | inl passes ↦ rw passes (done w passes h)
              | inr misses ↦ rw misses (refused w misses h)
            ];
          })
          w w.faults refl h;
  }
