-- ===== src/Pacing/Delays.antt =====
-- How the delays of `Backoff` grow.
use native.Mathlib.Nat.{pow-suc}
use geo_device.Prelude.{
  ℕ, zero, suc, ◌*◌, ◌^◌, ◌≤◌, ◌<◌, min, ◌≡◌, refl, arith, ◌==◌, if◌then◌else◌,
}
use geo_device.Pacing.{Backoff, reset, sleep}

-- `n` sleeps, one after the other.
unfoldable pub sleeps : ℕ → Backoff → Backoff
sleeps zero b = b
sleeps (suc n) b = (sleep (sleeps n b)).0

doubled :
    (s p l d : ℕ) {bs bl : ℕ}
    → bs ≡ s
    → bl ≡ l
    → 0 < s * p
    → d ≡ min (s * p) l
    → 0 < l
    → (if d == 0 then bs else min (d * 2) bl) ≡ min (s * (p * 2)) l
doubled s p l d es el h e hl = ground arith

-- What `n + 1` sleeps after a reset leave behind.
record After (s l n : ℕ) (b : Backoff) : Type 0 where
  start : b.start ≡ s
  limit : b.limit ≡ l
  power : 0 < s * 2 ^ n
  delay : b.delay ≡ min (s * 2 ^ n) l

sleep-After : (s l n : ℕ) (b : Backoff) → 0 < l → After s l n b → After s l (suc n) (sleep b).0
unfolding sleep
sleep-After s l n b hl a = record {
  start = a.start;
  limit = a.limit;
  power = rw pow-suc (omega (arith, a.power));
  delay = rw pow-suc (doubled s (2 ^ n) l b.delay a.start a.limit a.power a.delay hl);
}

first-After :
    (s l : ℕ) (b : Backoff)
    → b.start ≡ s
    → b.limit ≡ l
    → 0 < s
    → s ≤ l
    → After s l 0 (sleep (reset b)).0
unfolding sleep reset
first-After s l b es el hs hl = record {
  start = es;
  limit = el;
  power = omega arith;
  delay = ground arith;
}

sleeps-After :
    (n : ℕ) (b : Backoff)
    → 0 < b.start
    → b.start ≤ b.limit
    → After b.start b.limit n (sleeps (suc n) (reset b))
unfolding sleeps
sleeps-After zero b h k = first-After b.start b.limit b refl refl h k
sleeps-After (suc n) b h k =
    sleep-After b.start b.limit n (sleeps (suc n) (reset b)) (omega arith) (sleeps-After n b h k)

-- With a positive first delay that is at most the limit, the sleep number `n + 1` after a reset
-- lasts the first delay doubled `n` times, cut off at the limit.
pub sleep_doubles :
    (b : Backoff) (n : ℕ)
    → 0 < b.start
    → b.start ≤ b.limit
    → (sleep (sleeps n (reset b))).1 ≡ min (b.start * 2 ^ n) b.limit
unfolding sleep sleeps
sleep_doubles b n h k = (sleeps-After n b h k).delay
