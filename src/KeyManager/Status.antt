-- ===== src/KeyManager/Status.antt =====
-- The views of the pool in key_manager/api/status.py. The flags that only copy the settings are left out.
use qu_mail.Prelude.{ℕ, Bool, true}
use qu_mail.Prelude.Int.{ℤ, pos}
use qu_mail.KeyManager.Pool.{Action, ◌>>=◌, pure}
use qu_mail.KeyManager.Pool.Maintenance.{get_stats, PoolStats}

pub record KeyAvailability : Type 0 where
  pub otp_bytes_available : ℕ
  pub aes_keys_available : ℤ
  pub pqc_keys_available : ℤ

abbrev pub availability : PoolStats → KeyAvailability
availability stats = record {
  otp_bytes_available = stats.otp_available;
  aes_keys_available = stats.aes_available;
  pqc_keys_available = pos 0;
}

-- `GET /keys/status`
unfoldable pub get_key_status : Action KeyAvailability
get_key_status = do stats ← get_stats; pure (availability stats)

pub record SystemStatus : Type 0 where
  pub healthy : Bool
  pub available : KeyAvailability
  pub total_keys_allocated : ℕ
  pub total_keys_consumed : ℕ

-- `GET /status`
unfoldable pub get_system_status : Action SystemStatus
get_system_status = do
  stats ← get_stats
  pure (record {
    healthy = true;
    available = availability stats;
    total_keys_allocated = stats.total_allocated;
    total_keys_consumed = stats.total_consumed;
  })
