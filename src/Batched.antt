-- ===== src/Batched.antt =====
-- `itertools.batched`.
use geo_device.Prelude.{
  ℕ, zero, suc, ◌+◌, ◌-◌, ◌≤◌, ◌<◌, ◌≡◌, refl, List, [], ◌∷◌, ◌++◌, append_assoc, flat, length,
  length-append, arith,
}

-- The batches of `xs` behind a batch `current` that has room for `room` more elements.
unfoldable pub batched_from : {A : Type 0} → ℕ → List A → ℕ → List A → List (List A)
batched_from n [] room [] = []
batched_from n [] room (c ∷ current) = (c ∷ current) ∷ []
batched_from n (x ∷ xs) zero current = current ∷ batched_from n xs (n - 1) (x ∷ [])
batched_from n (x ∷ xs) (suc room) current = batched_from n xs room (current ++ x ∷ [])

-- `batched(xs, n)` for a positive `n`
unfoldable pub batched : {A : Type 0} → ℕ → List A → List (List A)
unfolding batched_from
batched n xs = batched_from n xs n []

-- All batches but the last have `n` elements, and the last has at least one and no more than `n`.
abbrev pub IsBatching : {A : Type 0} → ℕ → List (List A) → Type 0
IsBatching n [] = Unit {0}
IsBatching n (b ∷ []) = (0 < length b) × (length b ≤ n)
IsBatching n (b ∷ c ∷ bs) = (length b ≡ n) × IsBatching n (c ∷ bs)

module _ {A : Type 0} where
  flat-batched_from :
      (n : ℕ) (xs : List A) (room : ℕ) (current : List A)
      → flat (batched_from n xs room current) ≡ current ++ xs
  unfolding batched_from
  flat-batched_from n [] room [] = refl
  flat-batched_from n [] room (c ∷ current) = refl
  flat-batched_from n (x ∷ xs) zero current = rw (flat-batched_from n xs (n - 1) (x ∷ []))
  flat-batched_from n (x ∷ xs) (suc room) current =
      rw (flat-batched_from n xs room (current ++ x ∷ [])) (append_assoc current (x ∷ []) xs)

  -- The batches, one after the other, are the list.
  pub flat-batched : (n : ℕ) (xs : List A) → flat (batched n xs) ≡ xs
  unfolding batched
  flat-batched n xs = flat-batched_from n xs n []

  cons-IsBatching :
      (n : ℕ) (b : List A) (bs : List (List A))
      → 0 < n
      → length b ≡ n
      → IsBatching n bs
      → IsBatching n (b ∷ bs)
  cons-IsBatching n b [] h e v = (omega arith, omega arith)
  cons-IsBatching n b (c ∷ bs) h e v = (e, v)

  batched_from-IsBatching :
      (n : ℕ) (xs : List A) (room : ℕ) (current : List A)
      → 0 < n
      → length current + room ≡ n
      → IsBatching n (batched_from n xs room current)
  unfolding batched_from
  batched_from-IsBatching n [] room [] h e = tt
  batched_from-IsBatching n [] room (c ∷ current) h e = (omega arith, omega arith)
  batched_from-IsBatching n (x ∷ xs) zero current h e =
      cons-IsBatching n current _ h (omega arith)
        (batched_from-IsBatching n xs (n - 1) (x ∷ []) h (omega arith))
  batched_from-IsBatching n (x ∷ xs) (suc room) current h e =
      batched_from-IsBatching n xs room (current ++ x ∷ []) h
        (omega (arith, length-append current (x ∷ [])))

  pub batched-IsBatching : (n : ℕ) (xs : List A) → 0 < n → IsBatching n (batched n xs)
  unfolding batched
  batched-IsBatching n xs h = batched_from-IsBatching n xs n [] h (omega arith)
