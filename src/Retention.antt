-- ===== src/Retention.antt =====
-- `_delete_batch`, `purge_expired_pings` and `retention_worker` of app/pipeline/retention.py, over a
-- database that executes a statement.
pub mod Purge
mod Tests
use geo_device.Prelude.{ℕ, zero, suc, ◌+◌, ◌-◌, ◌*◌, Bool, true, false, ◌||◌, ltb, if◌then◌else◌}
use geo_device.Constants.{retention_max_passes}
use geo_device.Errors.{Exn, is_os_error, is_sqlalchemy_error}
use geo_device.Exec.{Exec, pure, try_except, ◌>>=◌, ◌>>◌}
use geo_device.Settings.{IngestSettings}

-- `(SQLAlchemyError, OSError, TimeoutError)`
abbrev purge_errors : Exn → Bool
purge_errors e = is_sqlalchemy_error e || is_os_error e

-- `DELETE … WHERE id IN (SELECT id … WHERE recorded_at < recorded_before LIMIT limit)`
pub record Delete : Type 0 where
  pub recorded_before : ℕ
  pub limit : ℕ

unfoldable pub delete_batch : (cutoff batch_size : ℕ) → Delete
delete_batch cutoff batch_size = record { recorded_before = cutoff; limit = batch_size }

-- `timedelta(days=days)` in milliseconds
unfoldable pub days_delta : ℕ → ℕ
days_delta days = days * 86_400_000

-- `now` is `datetime.now(UTC)` in milliseconds since `datetime.min`, and `execute` runs a statement in
-- a transaction of its own and returns its `rowcount`.
module _ {W : Type 0} (now : W → ℕ) (execute : Delete → Exec W ℕ) (settings : IngestSettings) where
  -- The loop, with the passes that are left and what is deleted so far.
  unfoldable pub purge : Delete → ℕ → ℕ → Exec W ℕ
  unfolding pure ◌>>=◌
  purge stmt zero deleted = pure deleted
  purge stmt (suc passes) deleted = execute stmt >>= λ removed.
      if ltb removed settings.retention_batch_size
      then pure (deleted + removed)
      else purge stmt passes (deleted + removed)

  unfoldable pub purge_expired_pings : Exec W ℕ
  unfolding delete_batch days_delta purge
  purge_expired_pings w =
      let cutoff = now w - days_delta settings.retention_days in
      purge (delete_batch cutoff settings.retention_batch_size) retention_max_passes 0 w

  -- The first `n` rounds of `retention_worker`.
  unfoldable pub rounds : (sleep : ℕ → Exec W (Unit {0})) → ℕ → Exec W (Unit {0})
  unfolding purge_expired_pings try_except pure ◌>>=◌
  rounds sleep zero = pure tt
  rounds sleep (suc n) =
      (sleep settings.retention_interval
        >> try_except (purge_expired_pings >> pure tt) purge_errors (λ e. pure tt))
      >> rounds sleep n
