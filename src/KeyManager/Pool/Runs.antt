-- ===== src/KeyManager/Pool/Runs.antt =====
-- Sequences of calls of the pool's methods, in any order that the lock admits.
use qu_mail.Prelude.{ℕ, String, List, []}
use qu_mail.Prelude.Int.{ℤ}
use qu_mail.KeyManager.KeyEntry.{KeyEntry, Codec}
use qu_mail.KeyManager.Pool.{Pool, RandomSource, List, ◌∷◌, []}
use qu_mail.KeyManager.Pool.Methods.{
  allocate_key, inject_key, consume_key, delete_key, add_otp_material, add_aes_keys,
}
use qu_mail.KeyManager.Pool.Maintenance.{cleanup_expired}
use qu_mail.KeyManager.Pool.Invariant.{IsValid}
use qu_mail.KeyManager.Pool.Preservation.{
  allocate_key-IsValid, inject_key-IsValid, consume_key-IsValid, delete_key-IsValid,
  cleanup_expired-IsValid, add_otp_material-IsValid, add_aes_keys-IsValid,
}

-- A call, with what it draws from outside.
pub data Call : Type 0 where
  allocate : RandomSource → String → ℕ → String → ℕ → String → String → Call
  inject : KeyEntry → Call
  consume : ℕ → String → Call
  delete : String → Call
  provision_otp : RandomSource → ℤ → Call
  provision_aes : ℤ → Call
  cleanup : ℕ → Call

module _ (codec : Codec) where
  -- The pool after a call, whether it returned or raised.
  unfoldable pub step : Call → Pool → Pool
  step (allocate src uuid now peer size kind user) p =
      (allocate_key codec src uuid now peer size kind user p).1
  step (inject entry) p = (inject_key codec entry p).1
  step (consume now k) p = (consume_key codec now k p).1
  step (delete k) p = (delete_key codec k p).1
  step (provision_otp src n) p = (add_otp_material codec src n p).1
  step (provision_aes n) p = (add_aes_keys codec n p).1
  step (cleanup now) p = (cleanup_expired codec now p).1

  unfoldable pub run : List Call → Pool → Pool
  run [] p = p
  run (c ∷ cs) p = run cs (step c p)

  pub step-IsValid : (c : Call) (p : Pool) → IsValid p → IsValid (step c p)
  unfolding step
  step-IsValid (allocate src uuid now peer size kind user) p v =
      allocate_key-IsValid codec src uuid now peer size kind user p v
  step-IsValid (inject entry) p v = inject_key-IsValid codec entry p v
  step-IsValid (consume now k) p v = consume_key-IsValid codec now k p v
  step-IsValid (delete k) p v = delete_key-IsValid codec k p v
  step-IsValid (provision_otp src n) p v = add_otp_material-IsValid codec src n p v
  step-IsValid (provision_aes n) p v = add_aes_keys-IsValid codec n p v
  step-IsValid (cleanup now) p v = cleanup_expired-IsValid codec now p v

  -- From a valid pool every sequence of calls, those that raise included, leads to a valid pool: the
  -- offset stays in the pool and equals the OTP bytes used, the counters exist, the consumed and the
  -- consumable keys together are no more than the allocated ones, and the objects that left the pool
  -- hold no key material.
  pub run-IsValid : (cs : List Call) (p : Pool) → IsValid p → IsValid (run cs p)
  unfolding run
  run-IsValid [] p v = v
  run-IsValid (c ∷ cs) p v = run-IsValid cs (step c p) (step-IsValid c p v)
