-- ===== src/Exec/Triple.antt =====
-- Rules to prove what code ensures, one for each way to build it.
use geo_device.Prelude.{◌≡◌, refl, Bool, true, false, if◌then◌else◌, Bool-cases, inl, inr}
use geo_device.Errors.{Exn}
use geo_device.Exec.{
  Exec, Result, ok, raised, pure, raise, lift, gets, modify, try_except, cleaned, with_exit,
  try_finally, ◌>>=◌,
}

-- What holds of a result: `Q` of a value and the state, `E` of an exception and the state.
abbrev pub Outcome : {S A : Type 0} → (A → S → Type 0) → (Exn → S → Type 0) → Result A → S → Type 0
Outcome Q E (ok a) s = Q a s
Outcome Q E (raised e) s = E e s

-- From a state with `P` the code returns with `Q` or raises with `E`.
pub record Triple {S A : Type 0} (P : S → Type 0) (m : Exec S A) (Q : A → S → Type 0)
    (E : Exn → S → Type 0) : Type 0 where
  pub at : (s : S) → P s → Outcome Q E (m s).0 (m s).1

module _ {S A : Type 0} {Q : A → S → Type 0} {E : Exn → S → Type 0} where
  handled :
      (caught : Exn → Bool) (handler : Exn → Exec S A) (r : Result A) (s : S)
      (E' : Exn → S → Type 0)
      → ((e : Exn) → caught e ≡ false → (s : S) → E' e s → E e s)
      → ((e : Exn) → caught e ≡ true → Triple (E' e) (handler e) Q E)
      → Outcome Q E' r s
      → Outcome Q E
          (try_except (lift r) caught handler s).0
          (try_except (lift r) caught handler s).1
  unfolding try_except lift
  handled caught handler (ok a) s E' keep t o = o
  handled caught handler (raised e) s E' keep t o = elim (Bool-cases (caught e)) [
    | inl c ↦ rw (c, if◌then◌else◌) ((t e c).at s o)
    | inr c ↦ rw (c, if◌then◌else◌) (keep e c s o)
  ]

module _ {S A : Type 0} {P : S → Type 0} {Q : A → S → Type 0} {E : Exn → S → Type 0} where
  pub Triple-pure : (a : A) → ((s : S) → P s → Q a s) → Triple P (pure a) Q E
  unfolding pure
  Triple-pure a h = record { at = h }

  pub Triple-raise : (e : Exn) → ((s : S) → P s → E e s) → Triple P (raise {A = A} e) Q E
  unfolding raise
  Triple-raise e h = record { at = h }

  pub Triple-gets : (f : S → A) → ((s : S) → P s → Q (f s) s) → Triple P (gets f) Q E
  unfolding gets
  Triple-gets f h = record { at = h }

  pub Triple-weaken :
      {P' : S → Type 0} (m : Exec S A) → ((s : S) → P s → P' s) → Triple P' m Q E → Triple P m Q E
  Triple-weaken m h t = record { at = λ s p. t.at s (h s p) }

  pub Triple-if :
      (b : Bool) (m n : Exec S A)
      → (b ≡ true → Triple P m Q E)
      → (b ≡ false → Triple P n Q E)
      → Triple P (if b then m else n) Q E
  Triple-if true m n t u = t refl
  Triple-if false m n t u = u refl

  pub Triple-try :
      (E' : Exn → S → Type 0) (m : Exec S A) (caught : Exn → Bool) (handler : Exn → Exec S A)
      → Triple P m Q E'
      → ((e : Exn) → caught e ≡ false → (s : S) → E' e s → E e s)
      → ((e : Exn) → caught e ≡ true → Triple (E' e) (handler e) Q E)
      → Triple P (try_except m caught handler) Q E
  unfolding try_except lift
  Triple-try E' m caught handler body keep t = record {
    at = λ s p. handled caught handler (m s).0 (m s).1 E' keep t (body.at s p);
  }

  pub Triple-exit :
      (Q' : A → S → Type 0) (E' : Exn → S → Type 0) (m : Exec S A) (leave : Exec S (Unit {0}))
      → Triple P m Q' E'
      → ((a : A) → Triple (Q' a) leave (λ t. Q a) E)
      → ((e : Exn) → Triple (E' e) leave (λ t. E e) E)
      → Triple P (with_exit m leave) Q E
  unfolding with_exit
  Triple-exit Q' E' m leave t good bad = record { at = λ s p. go (m s).0 (m s).1 (t.at s p) }
    where
      after :
          (r : Result A) (c : Result (Unit {0})) (s : S)
          → Outcome (λ t s. Outcome Q E r s) E c s
          → Outcome Q E (cleaned r (c, s)).0 (cleaned r (c, s)).1
      after r (ok t) s o = o
      after r (raised e) s o = o

      go :
          (r : Result A) (s : S)
          → Outcome Q' E' r s
          → Outcome Q E (cleaned r (leave s)).0 (cleaned r (leave s)).1
      go (ok a) s o = after (ok a) (leave s).0 (leave s).1 ((good a).at s o)
      go (raised e) s o = after (raised e) (leave s).0 (leave s).1 ((bad e).at s o)

  pub Triple-finally :
      (Q' : A → S → Type 0) (E' : Exn → S → Type 0) (m : Exec S A) (cleanup : S → S)
      → Triple P m Q' E'
      → ((a : A) (s : S) → Q' a s → Q a (cleanup s))
      → ((e : Exn) (s : S) → E' e s → E e (cleanup s))
      → Triple P (try_finally m cleanup) Q E
  unfolding try_finally
  Triple-finally Q' E' m cleanup t good bad = record { at = λ s p. go (m s).0 (m s).1 (t.at s p) }
    where
      go : (r : Result A) (s : S) → Outcome Q' E' r s → Outcome Q E r (cleanup s)
      go (ok a) s o = good a s o
      go (raised e) s o = bad e s o

pub Triple-modify :
    {S : Type 0} {P : S → Type 0} {Q : Unit {0} → S → Type 0} {E : Exn → S → Type 0} (f : S → S)
    → ((s : S) → P s → Q tt (f s))
    → Triple P (modify f) Q E
unfolding modify
Triple-modify f h = record { at = h }

module _ {S A B : Type 0} {Q : B → S → Type 0} {E : Exn → S → Type 0} where
  bound :
      (R : A → S → Type 0) (f : A → Exec S B) (r : Result A) (s : S)
      → ((a : A) → Triple (R a) (f a) Q E)
      → Outcome R E r s
      → Outcome Q E ((lift r >>= f) s).0 ((lift r >>= f) s).1
  unfolding ◌>>=◌
  bound R f (ok a) s t o = (t a).at s o
  bound R f (raised e) s t o = o

module _ {S A B : Type 0} {P : S → Type 0} {Q : B → S → Type 0} {E : Exn → S → Type 0} where
  pub Triple-bind :
      (R : A → S → Type 0) (m : Exec S A) (f : A → Exec S B)
      → Triple P m R E
      → ((a : A) → Triple (R a) (f a) Q E)
      → Triple P (m >>= f) Q E
  unfolding ◌>>=◌
  Triple-bind R m f t u = record { at = λ s p. bound R f (m s).0 (m s).1 u (t.at s p) }

pub Triple-lift :
    {S A : Type 0} {P : S → Type 0} (r : Result A) → Triple P (lift r) (λ a. P) (λ e. P)
unfolding lift
Triple-lift (ok a) = record { at = λ s p. p }
Triple-lift (raised e) = record { at = λ s p. p }

-- An invariant in place of a stronger condition after the code.
pub Triple-post :
    {S A : Type 0} {P : S → Type 0} (Q' Q : A → S → Type 0) (E' E : Exn → S → Type 0) (m : Exec S A)
    → ((a : A) (s : S) → Q' a s → Q a s)
    → ((e : Exn) (s : S) → E' e s → E e s)
    → Triple P m Q' E'
    → Triple P m Q E
Triple-post {S} {A} Q' Q E' E m good bad t = record { at = λ s p. go (m s).0 (m s).1 (t.at s p) }
  where
    go : (r : Result A) (s : S) → Outcome Q' E' r s → Outcome Q E r s
    go (ok a) s o = good a s o
    go (raised e) s o = bad e s o

-- Two triples of the same code.
pub Triple-and :
    {S A : Type 0} {P P' : S → Type 0} {Q Q' : A → S → Type 0} {E E' : Exn → S → Type 0}
    (m : Exec S A)
    → Triple P m Q E
    → Triple P' m Q' E'
    → Triple (λ s. P s × P' s) m (λ a s. Q a s × Q' a s) (λ e s. E e s × E' e s)
Triple-and {S} {A} {Q = Q} {Q' = Q'} {E = E} {E' = E'} m t u = record {
  at = λ s p. go (m s).0 (m s).1 (t.at s p.0) (u.at s p.1);
}
  where
    go :
        (r : Result A) (s : S)
        → Outcome Q E r s
        → Outcome Q' E' r s
        → Outcome (λ a s. Q a s × Q' a s) (λ e s. E e s × E' e s) r s
    go (ok a) s o o' = (o, o')
    go (raised e) s o o' = (o, o')

-- A call with a law that relates the state before to the state after.
pub Triple-law :
    {S A : Type 0} (P : S → Type 0) (Q : A → S → Type 0) (E : Exn → S → Type 0) (m : Exec S A)
    (R : S → A → S → Type 0) (F : S → Exn → S → Type 0)
    → ((s : S) → Outcome (R s) (F s) (m s).0 (m s).1)
    → ((s s' : S) (a : A) → P s → R s a s' → Q a s')
    → ((s s' : S) (e : Exn) → P s → F s e s' → E e s')
    → Triple P m Q E
Triple-law {S} {A} P Q E m R F law good bad = record { at = λ s p. go s p (m s).0 (m s).1 (law s) }
  where
    go : (s : S) (p : P s) (r : Result A) (s' : S) → Outcome (R s) (F s) r s' → Outcome Q E r s'
    go s p (ok a) s' h = good s s' a p h
    go s p (raised e) s' h = bad s s' e p h
