-- ===== src/Generator/Ticks.antt =====
-- `generate` and the arguments of generator.py: one tick after the other, with a wait between.
use geo_device.Prelude.{
  ℕ, zero, suc, ◌+◌, ◌-◌, max, ◌≡◌, refl, sym, ◌∙◌, ap, arith, List, [], ◌∷◌, String, length, All,
}
use geo_device.Generator.{Device, TickStats, Chance, Client, build_from, build_devices, run_tick}
use geo_device.Generator.Counting.{total, run_tick-total, length-ids}
use geo_device.Pings.{Float}

-- 50.4501 and 30.5234, 0.15, and 0.0005
abbrev pub center_lat : Float
center_lat = record { bits = 4_632_297_037_670_774_525 }

abbrev pub center_lon : Float
center_lon = record { bits = 4_629_284_790_986_258_933 }

abbrev pub spread : Float
spread = record { bits = 4_594_572_339_843_380_019 }

abbrev pub default_drift : Float
default_drift = record { bits = 4_557_750_909_289_998_844 }

-- The arguments of the command line; the interval is in milliseconds.
pub record Args : Type 0 where
  pub url : String
  pub devices : ℕ
  pub interval : ℕ
  pub drift : Float

abbrev pub default_args : Args
default_args = record {
  url = "http://localhost:8000/ingest/batch";
  devices = 10_000;
  interval = 3_000;
  drift = default_drift;
}

-- The clock, and the wait between two ticks.
pub record Timer (W : Type 0) : Type 0 where
  pub monotonic : W → ℕ
  pub sleep : ℕ → W → W

-- A tick as it is printed, with the wait behind it.
pub record Tick : Type 0 where
  pub stats : TickStats
  pub elapsed : ℕ
  pub slept : ℕ

wait : (interval elapsed : ℕ) → elapsed + (interval - elapsed) ≡ max interval elapsed
wait interval elapsed = omega arith

module _ {W : Type 0} (chance : Chance W) (client : Client W) (timer : Timer W) (args : Args) where
  -- The first `n` rounds of `while True`; the wait is `max(0.0, args.interval - elapsed)`.
  unfoldable pub ticks : ℕ → List Device → W → List Tick × W
  unfolding run_tick
  ticks zero devices w = ([], w)
  ticks (suc n) devices w =
      let (stats, moved, w1) = run_tick chance client args.url args.drift devices w in
      let elapsed = timer.monotonic w1 - timer.monotonic w in
      let slept = args.interval - elapsed in
      let (rest, w2) = ticks n moved (timer.sleep slept w1) in
      (record { stats = stats; elapsed = elapsed; slept = slept } ∷ rest, w2)

  unfoldable pub generate : ℕ → W → List Tick × W
  unfolding build_devices ticks
  generate n w =
      let (devices, w1) = build_devices chance center_lat center_lon spread args.devices w in
      ticks n devices w1

  -- A tick counts every device once, and lasts with its wait the interval, or longer if the
  -- requests took longer.
  abbrev pub IsCounted : Tick → Type 0
  IsCounted t = (total t.stats ≡ args.devices) × (t.elapsed + t.slept ≡ max args.interval t.elapsed)

  length-build_from :
      (lat lon delta : Float) (index count : ℕ) (w : W)
      → length (build_from chance lat lon delta index count w).0 ≡ count
  unfolding build_from
  length-build_from lat lon delta index zero w = refl
  length-build_from lat lon delta index (suc count) w =
      ap suc (length-build_from lat lon delta (index + 1) count _)

  ticks-IsCounted :
      (n : ℕ) (devices : List Device) (w : W)
      → length devices ≡ args.devices
      → All IsCounted (ticks n devices w).0 × (length (ticks n devices w).0 ≡ n)
  unfolding ticks
  ticks-IsCounted zero devices w e = (tt, refl)
  ticks-IsCounted (suc n) devices w e =
      let (stats, moved, w1) = run_tick chance client args.url args.drift devices w in
      let (counted, named) = run_tick-total chance client args.url args.drift devices w in
      let elapsed = timer.monotonic w1 - timer.monotonic w in
      let rest =
        ticks-IsCounted n moved (timer.sleep (args.interval - elapsed) w1)
          (sym (length-ids moved) ∙ ap length named ∙ length-ids devices ∙ e) in
      (((counted ∙ e, wait args.interval elapsed), rest.0), ap suc rest.1)

  -- Whatever the service answers and however long it takes: in any number of ticks each counts
  -- every device once, as accepted, rejected or failed, and the wait behind it fills up the
  -- interval, if the requests left something of it.
  pub generate-IsCounted :
      (n : ℕ) (w : W) → All IsCounted (generate n w).0 × (length (generate n w).0 ≡ n)
  unfolding generate
  generate-IsCounted n w =
      ticks-IsCounted n _ _
        (unfold build_devices in length-build_from center_lat center_lon spread 0 args.devices w)
