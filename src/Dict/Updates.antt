-- ===== src/Dict/Updates.antt =====
-- `dict.update` with pairs, and with a comprehension over them.
use geo_device.Prelude.{
  ◌≡◌, refl, sym, subst, ◌∙◌, ap, List, [], ◌∷◌, Option, none, some, ite, Key, ◌≟◌, In, Distinct,
}
use geo_device.Dict.{Dict, keys, get, put, update}
use geo_device.Dict.Laws.{get-put, get-absent, update-Distinct}

abbrev or_else : {V : Type 0} → Option V → Option V → Option V
or_else none before = before
or_else (some v) before = some v

or_else_assoc : {V : Type 0} (a b c : Option V) → or_else (or_else a b) c ≡ or_else a (or_else b c)
or_else_assoc none b c = refl
or_else_assoc (some v) b c = refl

module _ {K V : Type 0} ⦃key : Key K⦄ where
  -- The value of the last pair with the key, or else what was there before.
  abbrev pub last_of : K → List (K × V) → Option V → Option V
  last_of j [] before = before
  last_of j ((k, v) ∷ pairs) before = last_of j pairs (ite (k ≟ j) (some v) before)

  get-update :
      (d : Dict K V) (pairs : List (K × V)) (j : K)
      → get (update d pairs) j ≡ last_of j pairs (get d j)
  unfolding update
  get-update d [] j = refl
  get-update d ((k, v) ∷ pairs) j =
      get-update (put d k v) pairs j ∙ ap (last_of j pairs) (get-put d k j v)

  last_of-or_else :
      (j : K) (pairs : List (K × V)) (before : Option V)
      → last_of j pairs before ≡ or_else (last_of j pairs none) before
  last_of-or_else j [] before = refl
  last_of-or_else j ((k, v) ∷ pairs) before =
      last_of-or_else j pairs (ite (k ≟ j) (some v) before)
      ∙ ap (or_else (last_of j pairs none)) (ite-or_else (k ≟ j))
      ∙ sym (or_else_assoc (last_of j pairs none) (ite (k ≟ j) (some v) none) before)
      ∙ ap (λ o. or_else o before) (sym (last_of-or_else j pairs (ite (k ≟ j) (some v) none)))
    where
      ite-or_else : (d : Dec (k ≡ j)) → ite d (some v) before ≡ or_else (ite d (some v) none) before
      ite-or_else (yes p) = refl
      ite-or_else (no n) = refl

  last_of-Distinct :
      (j : K) (d : Dict K V) (before : Option V)
      → Distinct (keys d)
      → last_of j d before ≡ or_else (get d j) before
  unfolding keys get
  last_of-Distinct j [] before h = refl
  last_of-Distinct j ((k, v) ∷ d) before h =
      last_of-Distinct j d (ite (k ≟ j) (some v) before) h.1 ∙ here (k ≟ j)
    where
      here :
          (e : Dec (k ≡ j))
          → or_else (get d j) (ite e (some v) before) ≡ or_else (ite e (some v) (get d j)) before
      here (yes p) = rw (get-absent d j (subst (λ i. ¬ In i (keys d)) p h.0)) refl
      here (no n) = refl

  -- An update with the dict that a comprehension makes of some pairs is one with the pairs.
  pub get-update-update :
      (d : Dict K V) (pairs : List (K × V)) (j : K)
      → get (update d (update [] pairs)) j ≡ last_of j pairs (get d j)
  unfolding keys get
  get-update-update d pairs j =
      get-update d (update [] pairs) j
      ∙ last_of-Distinct j (update [] pairs) (get d j) (update-Distinct [] pairs tt)
      ∙ ap (λ o. or_else o (get d j)) (get-update [] pairs j)
      ∙ sym (last_of-or_else j pairs (get d j))
