-- ===== src/KeyManager/Pool/Allocation.antt =====
-- What `allocate_key` gives and leaves on a valid pool.
use qu_mail.Dict.{insert}
use qu_mail.Result.{Error, ok, err}
use qu_mail.Prelude.{
  ℕ, String, Bytes, str_eq, ◌≡◌, true, false, Option-cases, take, inl, drop, ◌∙◌, inr, ◌++◌, refl,
  ◌+◌, ◌≤◌, length, ap, if◌then◌else◌,
}
use qu_mail.Prelude.Int.{pos, leb_ℤ}
use qu_mail.KeyManager.KeyEntry.{KeyEntry, Codec}
use qu_mail.KeyManager.Pool.{
  Pool, RandomSource, bind_ok, bind_err, persist, update_user_quota, ◌>>◌, Error, insert, ok, pos,
  err, length, ap,
}
use qu_mail.KeyManager.Pool.Methods.{
  replenish_otp, cut_otp, draw_aes, enter_key, allocate_key, otp_type, new_entry,
}
use qu_mail.KeyManager.Pool.Invariant.{
  IsValid, entered, enter_key_lem, otp_material_lem, aes_drawn, draw_aes_lem, draw_aes_failed,
  draw_aes-IsValid,
}

-- A key was entered: the OTP pool is left alone, and the dict has one more entry.
abbrev pub Enters : KeyEntry → Pool → Pool → Type 0
Enters e p q =
    (q.otp_pool ≡ p.otp_pool)
    × (q.otp_offset ≡ p.otp_offset)
    × (q.allocated_keys ≡ insert e.key_id e p.allocated_keys)

module _ (codec : Codec) where
  pub enter_key-Enters :
      (e : KeyEntry) (p : Pool)
      → IsValid p
      → (q : Pool) × (enter_key codec e p ≡ (ok e, q)) × Enters e p q
  enter_key-Enters e p v = elim (Option-cases p.hooks) [
    | inl absent ↦ absurd (v.hooked absent)
    | inr (hs, present) ↦ (
      entered codec e v.allocated hs p,
      enter_key_lem codec e p hs v present,
      unfold persist update_user_quota in (refl, refl, refl),
    )
  ]

  module _ (src : RandomSource) (uuid : String) (now : ℕ) (peer_id : String) (size : ℕ)
      (key_type user_id : String) (p : Pool) (v : IsValid p) where
    abbrev entry : Bytes → KeyEntry
    entry = new_entry uuid now peer_id key_type user_id

    pub allocated_otp :
        str_eq key_type otp_type ≡ true
        → (more : Bytes) × (q : Pool) × (allocate_key codec src uuid now peer_id size key_type
              user_id p
            ≡ (ok (entry (take size (drop p.otp_offset (p.otp_pool ++ more)))), q))
          × (q.otp_pool ≡ p.otp_pool ++ more)
          × (q.otp_offset ≡ p.otp_offset + size)
          × (p.otp_offset + size ≤ length (p.otp_pool ++ more))
          × (q.allocated_keys
              ≡ insert uuid
                  (entry (take size (drop p.otp_offset (p.otp_pool ++ more))))
                  p.allocated_keys)
    unfolding allocate_key
    allocated_otp otp =
        let (more, q, e, same, moved, keys, fits, valid) = otp_material_lem codec src size p v in
        let bs = take size (drop p.otp_offset (p.otp_pool ++ more)) in
        let (q', e', (same', moved', keys')) = enter_key-Enters (entry bs) q valid in
        (
          more,
          q',
          rw otp (
              bind_ok (replenish_otp codec src size >> cut_otp codec size)
                (λ b. enter_key codec (entry b)) e
              ∙ e'),
          same' ∙ same,
          moved' ∙ moved,
          fits,
          keys' ∙ ap (insert uuid (entry bs)) keys,
        )

    pub allocated_aes :
        {bs : Bytes}
        → str_eq key_type otp_type ≡ false
        → src.draw (pos size) ≡ ok bs
        → (q : Pool) × (allocate_key codec src uuid now peer_id size key_type user_id p
            ≡ (ok (entry bs), q))
          × Enters (entry bs) p q
    unfolding allocate_key
    allocated_aes {bs} other drawn =
        let e = draw_aes_lem codec src size p bs v drawn in
        let (q, e', (same, moved, keys)) =
          enter_key-Enters (entry bs) (aes_drawn codec v.aes p)
            (rw e at (draw_aes-IsValid codec src size p v)) in
        (
          q,
          rw other
              (bind_ok (draw_aes codec src size) (λ b. enter_key codec (entry b)) {p = p} e ∙ e'),
          (same, moved, keys),
        )

    pub allocation_failed :
        {e : Error}
        → str_eq key_type otp_type ≡ false
        → src.draw (pos size) ≡ err e
        → (q : Pool) × (allocate_key codec src uuid now peer_id size key_type user_id p
            ≡ (err e, q))
          × (q.otp_pool ≡ p.otp_pool)
          × (q.otp_offset ≡ p.otp_offset)
          × (q.allocated_keys ≡ p.allocated_keys)
    unfolding allocate_key
    allocation_failed {e} other failed = (
      record p {
        aes_key_count = if leb_ℤ p.aes_key_count (pos 0) then pos 1000 else p.aes_key_count;
      },
      rw other (
          bind_err (draw_aes codec src size) (λ b. enter_key codec (entry b)) {p = p}
            (draw_aes_failed codec src size p e failed)),
      refl,
      refl,
      refl,
    )
