-- ===== src/Presence/Digits.antt =====
-- Zones of different ids have different keys.
use geo_device.Prelude.{
  ℕ, zero, suc, ◌+◌, ◌-◌, ◌*◌, ◌/◌, ◌<◌, ◌≡◌, sym, ap, ◌∙◌, refl, inl, inr, [], ◌∷◌, ◌++◌,
  append-nil, ltb, Bool-cases, arith,
}
use geo_device.Constants.{Bytes}
use geo_device.Presence.{digits_of, reversed, zone_key}

-- The number that digits write, the last one first.
value : Bytes → ℕ
value [] = 0
value (b ∷ bs) = (b - b'0') + 10 * value bs

value-digits_of : (fuel n : ℕ) → n < fuel → value (digits_of fuel n) ≡ n
unfolding value digits_of
value-digits_of zero n h = absurd (omega arith)
value-digits_of (suc fuel) n h = elim (Bool-cases (ltb n 10)) [
  | inl e ↦ let small : n < 10 = ground arith in rw (e, value) (omega (arith, small))
  | inr e ↦
      let large : 10 < n + 1 = ground arith in
      let more : value (digits_of fuel (n / 10)) ≡ n / 10 =
        value-digits_of fuel (n / 10) (omega (arith, large)) in
      rw (e, value) (omega (arith, more))
]

reversed-reversed : (xs ys zs : Bytes) → reversed (reversed xs ys) zs ≡ reversed ys (xs ++ zs)
reversed-reversed [] ys zs = refl
reversed-reversed (x ∷ xs) ys zs = reversed-reversed xs (x ∷ ys) zs

value-zone_key : (n : ℕ) → value (reversed (zone_key n) []) ≡ n
unfolding zone_key
value-zone_key n =
    ap value (reversed-reversed (digits_of (suc n) n) [] [] ∙ append-nil (digits_of (suc n) n))
    ∙ value-digits_of (suc n) n (omega arith)

pub zone_key_inj : (m n : ℕ) → zone_key m ≡ zone_key n → m ≡ n
zone_key_inj m n e =
    sym (value-zone_key m) ∙ ap (λ key. value (reversed key [])) e ∙ value-zone_key n
