-- ===== src/Dict/Laws.antt =====
-- The laws of `dict`: what a read returns after a write, and that no key stands twice.
use geo_device.Prelude.{
  ◌≡◌, refl, ◌≢◌, ◌↔◌, ◌⊎◌, inl, inr, List, [], ◌∷◌, none, some, ite, arith, Key, ◌≟◌, In, Distinct,
}
use geo_device.Dict.{Dict, keys, get, put, remove, update}

module _ {K V : Type 0} ⦃key : Key K⦄ where
  pub get-put :
      (d : Dict K V) (k j : K) (v : V) → get (put d k v) j ≡ ite (k ≟ j) (some v) (get d j)
  unfolding get put
  get-put [] k j v = refl
  get-put ((i, w) ∷ d) k j v = ground (arith, get-put d k j v)

  pub get-absent : (d : Dict K V) (j : K) → ¬ In j (keys d) → get d j ≡ none
  unfolding get keys
  get-absent [] j h = refl
  get-absent ((k, v) ∷ d) j h = ground (arith, get-absent d j)

  pub get-In : (d : Dict K V) (j : K) {v : V} → get d j ≡ some v → In j (keys d)
  unfolding get keys
  get-In [] j h = cc
  get-In ((k, v) ∷ d) j {v = x} h = ground (arith, get-In d j {v = x})

  In-put : (d : Dict K V) (k j : K) (v : V) → In j (keys (put d k v)) → j ≢ k → In j (keys d)
  unfolding put keys
  In-put [] k j v m h = ground arith
  In-put ((i, w) ∷ d) k j v m h = ground (arith, In-put d k j v)

  pub put-Distinct :
      (d : Dict K V) (k : K) (v : V) → Distinct (keys d) → Distinct (keys (put d k v))
  unfolding put keys
  put-Distinct [] k v h = ((λ m. m), tt)
  put-Distinct ((i, w) ∷ d) k v h = ground (arith, put-Distinct d k v, In-put d k i v)

  In-remove : (d : Dict K V) (k j : K) → In j (keys (remove d k)) → In j (keys d)
  unfolding remove keys
  In-remove [] k j m = m
  In-remove ((i, w) ∷ d) k j m = ground (arith, In-remove d k j)

  pub remove-Distinct : (d : Dict K V) (k : K) → Distinct (keys d) → Distinct (keys (remove d k))
  unfolding remove keys
  remove-Distinct [] k h = h
  remove-Distinct ((i, w) ∷ d) k h = ground (arith, remove-Distinct d k, In-remove d k i)

  pub get-remove :
      (d : Dict K V) (k j : K) → Distinct (keys d) → get (remove d k) j ≡ ite (k ≟ j) none (get d j)
  unfolding get remove keys
  get-remove [] k j h = ground arith
  get-remove ((i, w) ∷ d) k j h = ground (arith, get-remove d k j h.1, get-absent d j)

  pub update-Distinct :
      (d : Dict K V) (pairs : List (K × V)) → Distinct (keys d) → Distinct (keys (update d pairs))
  unfolding update
  update-Distinct d [] h = h
  update-Distinct d ((k, v) ∷ pairs) h = update-Distinct (put d k v) pairs (put-Distinct d k v h)

  pub In-keys-put :
      (d : Dict K V) (k : K) (v : V) (j : K) → In j (keys (put d k v)) ↔ ((k ≡ j) ⊎ In j (keys d))
  unfolding put keys
  In-keys-put [] k v j = ground arith
  In-keys-put ((i, w) ∷ d) k v j = ground (arith, In-keys-put d k v j, i ≟ k)

  -- A key that is there has a value.
  pub get_of-In : (d : Dict K V) (j : K) → In j (keys d) → (v : V) × (get d j ≡ some v)
  unfolding get keys
  get_of-In [] j m = absurd m
  get_of-In ((k, v) ∷ d) j m = elim (k ≟ j) [
    | yes p ↦ (v, ground arith)
    | no n ↦
        let (w, e) = get_of-In d j (elim m [ inl p ↦ absurd (n p) | inr m' ↦ m' ]) in
        (w, ground arith)
  ]
