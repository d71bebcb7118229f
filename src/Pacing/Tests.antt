-- ===== src/Pacing/Tests.antt =====
-- Runs of a back-off and a ticker.
use geo_device.Prelude.{ℕ, ◌+◌, ◌*◌, ◌^◌, ◌<◌, min, ◌≡◌, refl, arith, [], ◌∷◌, All}
use geo_device.Pacing.{Backoff, Ticker, new_backoff, sleep, reset, due}
use geo_device.Pacing.Delays.{sleeps, sleep_doubles}
use geo_device.Pacing.Fires.{fires, Spaced, fires-Spaced, quiet-lt}

abbrev retry : Backoff
retry = new_backoff 500 10_000

abbrev ticker : Ticker
ticker = record { interval = 1_000; jitter = 300; next_at = 1_250 }

sleep_doubles_example : (sleep (sleeps 6 (reset retry))).1 ≡ min (500 * 2 ^ 6) 10_000
sleep_doubles_example = sleep_doubles retry 6 (omega arith) (omega arith)

fires-Spaced_example :
    Spaced 1_000 1_250 (fires ticker ((1_000, 0) ∷ (1_300, 100) ∷ (2_000, 0) ∷ (2_400, 7) ∷ []))
fires-Spaced_example =
    fires-Spaced ticker ((1_000, 0) ∷ (1_300, 100) ∷ (2_000, 0) ∷ (2_400, 7) ∷ [])

quiet-lt_example : All (λ (c : ℕ × ℕ). c.0 < 1_300 + 1_000 + 300) ((1_500, 3) ∷ (2_399, 0) ∷ [])
unfolding due fires
quiet-lt_example = quiet-lt ticker 1_300 100 ((1_500, 3) ∷ (2_399, 0) ∷ []) refl (omega arith) refl
