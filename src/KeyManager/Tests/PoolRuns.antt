-- ===== src/KeyManager/Tests/PoolRuns.antt =====
-- Witnesses for the pool.
use qu_mail.Result.{ok, err, attribute_error}
use qu_mail.Dict.{lookup}
use qu_mail.Prelude.{String, ◌≤◌, ◌≡◌, some, take, true, length, arith, refl, drop, ◌+◌}
use qu_mail.KeyManager.KeyEntry.{KeyEntry}
use qu_mail.KeyManager.Pool.{Pool, new}
use qu_mail.KeyManager.Pool.Invariant.{IsValid}
use qu_mail.KeyManager.Pool.Methods.{allocate_key}
use qu_mail.KeyManager.Pool.Maintenance.{initialize, get_key, register_allocation_hook}
use qu_mail.KeyManager.Pool.Runs.{run, run-IsValid}
use qu_mail.KeyManager.Pool.Pads.{pads_given, pads_given_once}
use qu_mail.KeyManager.Pool.Consumption.{times_consumed, consumed_at_most_once}
use qu_mail.KeyManager.Pool.Service.{Serves, allocate_key-get_key}
use qu_mail.KeyManager.Pool.Start.{initialize-persist, restart_without_hooks, AllDistinct}
use qu_mail.KeyManager.Tests.Data.{codec, source, pool, pool-IsValid, calls, saved_store}

consumed_at_most_once_example : times_consumed codec "a" calls pool ≤ 1
consumed_at_most_once_example =
    consumed_at_most_once codec "a" calls pool pool-IsValid (refl, (refl, (refl, (refl, tt))))

pads_given_once_example :
    let q = run codec calls pool in
    let pads = pads_given codec calls pool in
    (pads ≡ take (length pads) (drop pool.otp_offset q.otp_pool))
    × (q.otp_offset ≡ pool.otp_offset + length pads)
    × (q.otp_offset ≤ length q.otp_pool)
    × (take (length pool.otp_pool) q.otp_pool ≡ pool.otp_pool)
pads_given_once_example = pads_given_once codec calls pool pool-IsValid

run-IsValid_example : IsValid (run codec calls pool)
run-IsValid_example = run-IsValid codec calls pool pool-IsValid

allocate_key-get_key_example :
    (e : KeyEntry) × (q : Pool) × (allocate_key codec source "b" 20 "bob" 3 "otp" "default" pool
      ≡ (ok e, q))
    × Serves "b" 3 e q
    × IsValid q
allocate_key-get_key_example =
    allocate_key-get_key codec source "b" 20 "bob" 3 "otp" "default" pool pool-IsValid (omega arith)

initialize-persist_example :
    (q : Pool) × (initialize codec source 10 4 (new (some saved_store) true) ≡ (ok tt, q))
    × (q.otp_pool ≡ pool.otp_pool)
    × (q.otp_offset ≡ pool.otp_offset)
    × (q.aes_key_count ≡ pool.aes_key_count)
    × (q.stats ≡ pool.stats)
    × ((key_id : String) → get_key key_id q ≡ (ok (lookup key_id pool.allocated_keys), q))
unfolding lookup AllDistinct
initialize-persist_example =
    initialize-persist codec source 10 4 true pool saved_store refl (λ e. cc) (refl, tt) refl

restart_without_hooks_example :
    (q : Pool) × (initialize codec source 10 4 (new (some saved_store) true) ≡ (ok tt, q))
    × ((register_allocation_hook q).0 ≡ err attribute_error)
    × ((allocate_key codec source "b" 20 "bob" 3 "aes_seed" "default" q).0 ≡ err attribute_error)
restart_without_hooks_example =
    restart_without_hooks codec source 10 4 true pool saved_store "b" 20 "bob" 3 "aes_seed"
      "default" refl (λ e. cc) refl pool-IsValid (omega arith) refl
