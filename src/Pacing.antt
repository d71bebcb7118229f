-- ===== src/Pacing.antt =====
-- `Backoff` and `Ticker` of app/pipeline/utils.py. Durations and clock readings are numbers of one
-- unit, say milliseconds: the constants that the program passes are whole in it. The clock and the
-- random jitter are arguments.
pub mod Delays
pub mod Fires
mod Tests
use geo_device.Prelude.{ℕ, ◌+◌, ◌*◌, min, Bool, true, false, ltb, ◌==◌, if◌then◌else◌}

pub record Backoff : Type 0 where
  pub start : ℕ
  pub limit : ℕ
  pub delay : ℕ

-- `Backoff(start, limit)`
abbrev pub new_backoff : ℕ → ℕ → Backoff
new_backoff start limit = record { start = start; limit = limit; delay = 0 }

unfoldable pub reset : Backoff → Backoff
reset b = record b { delay = 0 }

-- `sleep`: the new state, and the time slept
unfoldable pub sleep : Backoff → Backoff × ℕ
sleep b =
    let delay = if b.delay == 0 then b.start else min (b.delay * 2) b.limit in
    (record b { delay = delay }, delay)

pub record Ticker : Type 0 where
  pub interval : ℕ
  pub jitter : ℕ
  pub next_at : ℕ

-- `_period`; `random` is what `random.uniform(0.0, self._jitter)` returned
abbrev pub period : Ticker → ℕ → ℕ
period t random = t.interval + random

-- `Ticker(interval, jitter)`
unfoldable pub new_ticker : ℕ → ℕ → ℕ → ℕ → Ticker
new_ticker interval jitter now random = record {
  interval = interval;
  jitter = jitter;
  next_at = now + (interval + random);
}

unfoldable pub due : Ticker → ℕ → ℕ → Ticker × Bool
due t now random =
    if ltb now t.next_at then (t, false) else (record t { next_at = now + period t random }, true)
