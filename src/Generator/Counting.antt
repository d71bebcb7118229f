-- ===== src/Generator/Counting.antt =====
-- Every device of a tick is counted once.
use geo_device.Prelude.{
  ℕ, suc, ◌+◌, ◌≡◌, refl, arith, ap, List, [], ◌∷◌, map, String, length, length-append, flat,
}
use geo_device.Batched.{batched, flat-batched}
use geo_device.Pings.{Float}
use geo_device.Generator.{
  Device, TickStats, no_stats, merge, Answer, http_error, response, Chance, Client, drift,
  drift_all, to_payload, stats_of, send_batch, send_batches, merge_all, run_tick, batch_size,
}

abbrev pub total : TickStats → ℕ
total stats = stats.accepted + stats.rejected + stats.failed

abbrev pub totals : List TickStats → ℕ
totals [] = 0
totals (stats ∷ results) = total stats + totals results

abbrev pub ids : List Device → List String
ids devices = map (λ d. d.device_id) devices

total-stats_of : (answer : Answer) (n : ℕ) → total (stats_of answer n) ≡ n
unfolding stats_of
total-stats_of http_error n = ground arith
total-stats_of (response is_success status_code) n = ground arith

total-merge_all :
    (results : List TickStats) (stats : TickStats)
    → total (merge_all stats results) ≡ total stats + totals results
unfolding merge_all merge
total-merge_all [] stats = ground arith
total-merge_all (other ∷ results) stats =
    ground (arith, total-merge_all results (merge stats other))

pub length-ids : (devices : List Device) → length (ids devices) ≡ length devices
length-ids [] = refl
length-ids (d ∷ devices) = ap suc (length-ids devices)

module _ {W : Type 0} (chance : Chance W) (client : Client W) (url : String) where
  ids-drift_all :
      (delta : Float) (devices : List Device) (w : W)
      → ids (drift_all chance delta devices w).0 ≡ ids devices
  unfolding drift_all drift
  ids-drift_all delta [] w = refl
  ids-drift_all delta (device ∷ devices) w =
      ap (λ is. device.device_id ∷ is) (ids-drift_all delta devices (drift chance delta device w).1)

  totals-send_batches :
      (batches : List (List Device)) (w : W)
      → totals (send_batches client url batches w).0 ≡ length (flat batches)
  unfolding send_batches send_batch
  totals-send_batches [] w = refl
  totals-send_batches (batch ∷ batches) w = ground (
    arith,
    totals-send_batches batches (send_batch client url batch w).1,
    total-stats_of (client.post url (map (to_payload (client.now w)) batch) w).0 (length batch),
    length-append batch (flat batches),
  )

  -- Whatever the service answers, a tick keeps the devices in their order under their names, and
  -- counts each of them exactly once, as accepted, rejected or failed.
  pub run_tick-total :
      (delta : Float) (devices : List Device) (w : W)
      → (total (run_tick chance client url delta devices w).0 ≡ length devices)
        × (ids (run_tick chance client url delta devices w).1 ≡ ids devices)
  unfolding run_tick
  run_tick-total delta devices w =
      let (moved, w1) = drift_all chance delta devices w in
      let same = ids-drift_all delta devices w in
      (
        omega (
          arith,
          total-merge_all (send_batches client url (batched batch_size moved) w1).0 no_stats,
          totals-send_batches (batched batch_size moved) w1,
          ap length (flat-batched batch_size moved),
          ap length same,
          length-ids moved,
          length-ids devices,
        ),
        same,
      )
