-- ===== src/Pacing/Fires.antt =====
-- When a `Ticker` fires.
use geo_device.Prelude.{
  ℕ, ◌+◌, ◌≤◌, ◌<◌, ◌≡◌, true, List, [], ◌∷◌, arith, All, if◌then◌else◌, Bool-cases, inl, inr, ltb,
  All-mono,
}
use geo_device.Pacing.{Ticker, period, due}

-- The clock readings at which a series of calls of `due` returned `True`. A call is given by its
-- clock reading and its jitter.
unfoldable pub fires : Ticker → List (ℕ × ℕ) → List ℕ
unfolding due
fires t [] = []
fires t ((now, random) ∷ calls) =
    let (t', fired) = due t now random in
    let rest = fires t' calls in if fired then now ∷ rest else rest

-- Each element is at or after `lo`, and then `gap` or more after the one before.
abbrev pub Spaced : ℕ → ℕ → List ℕ → Type 0
Spaced gap lo [] = Unit {0}
Spaced gap lo (t ∷ ts) = (lo ≤ t) × Spaced gap (t + gap) ts

Spaced-mono : (gap : ℕ) {lo lo' : ℕ} (ts : List ℕ) → lo' ≤ lo → Spaced gap lo ts → Spaced gap lo' ts
Spaced-mono gap [] h s = tt
Spaced-mono gap (t ∷ ts) h s = (omega arith, s.1)

-- Two calls that fire are at least the interval of the ticker apart, and none fires before it is
-- due.
pub fires-Spaced : (t : Ticker) (calls : List (ℕ × ℕ)) → Spaced t.interval t.next_at (fires t calls)
unfolding fires
fires-Spaced t [] = tt
fires-Spaced t ((now, random) ∷ calls) = elim (Bool-cases (ltb now t.next_at)) [
  | inl early ↦ rw (early, fires, due) (fires-Spaced t calls)
  | inr late ↦
      let next = record t { next_at = now + period t random } in
      rw (late, fires, due)
        (
          ground arith,
          Spaced-mono t.interval (fires next calls) (ground arith) (fires-Spaced next calls),
        )
]

-- The calls of a series that does not fire all came before the ticker was due.
quiet-early :
    (t : Ticker) (calls : List (ℕ × ℕ))
    → fires t calls ≡ []
    → All (λ (c : ℕ × ℕ). c.0 < t.next_at) calls
unfolding fires due
quiet-early t [] h = tt
quiet-early t ((now, random) ∷ calls) h = ground (arith, quiet-early t calls)

-- A ticker that fires at `now`, with a jitter in its range, fires again at the latest at the first
-- call that is its interval and its whole jitter later: calls that do not fire are all earlier.
pub quiet-lt :
    (t : Ticker) (now random : ℕ) (calls : List (ℕ × ℕ))
    → (due t now random).1 ≡ true
    → random ≤ t.jitter
    → fires (due t now random).0 calls ≡ []
    → All (λ (c : ℕ × ℕ). c.0 < now + t.interval + t.jitter) calls
unfolding due
quiet-lt t now random calls fired h quiet =
    All-mono _ _ calls (λ c early. ground arith) (quiet-early (due t now random).0 calls quiet)
