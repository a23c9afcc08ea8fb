-- ===== src/KeyManager/Pool/Counters.antt =====
-- The four counters of `_stats`, and the number of keys that are held and not consumed.
use qu_mail.Prelude.{ℕ, ◌+◌, ◌≤◌, String, ◌≡◌, true, false, some, [], ◌∷◌, arith, if◌then◌else◌}
use qu_mail.Dict.{Dict, lookup, insert, erase, lookup-insert}
use qu_mail.KeyManager.KeyEntry.{KeyEntry}

-- The dict holds the four counters, at these values.
pub record Counters (stats : Dict ℕ) (allocated consumed otp aes : ℕ) : Type 0 where
  pub total_allocated : lookup "total_allocated" stats ≡ some allocated
  pub total_consumed : lookup "total_consumed" stats ≡ some consumed
  pub otp_bytes_used : lookup "otp_bytes_used" stats ≡ some otp
  pub aes_keys_used : lookup "aes_keys_used" stats ≡ some aes

module _ {stats : Dict ℕ} {a c o s : ℕ} (h : Counters stats a c o s) (v : ℕ) where
  pub set_allocated : Counters (insert "total_allocated" v stats) v c o s
  set_allocated = record {
    total_allocated = rw lookup-insert;
    total_consumed = rw lookup-insert h.total_consumed;
    otp_bytes_used = rw lookup-insert h.otp_bytes_used;
    aes_keys_used = rw lookup-insert h.aes_keys_used;
  }

  pub set_consumed : Counters (insert "total_consumed" v stats) a v o s
  set_consumed = record {
    total_allocated = rw lookup-insert h.total_allocated;
    total_consumed = rw lookup-insert;
    otp_bytes_used = rw lookup-insert h.otp_bytes_used;
    aes_keys_used = rw lookup-insert h.aes_keys_used;
  }

  pub set_otp : Counters (insert "otp_bytes_used" v stats) a c v s
  set_otp = record {
    total_allocated = rw lookup-insert h.total_allocated;
    total_consumed = rw lookup-insert h.total_consumed;
    otp_bytes_used = rw lookup-insert;
    aes_keys_used = rw lookup-insert h.aes_keys_used;
  }

  pub set_aes : Counters (insert "aes_keys_used" v stats) a c o v
  set_aes = record {
    total_allocated = rw lookup-insert h.total_allocated;
    total_consumed = rw lookup-insert h.total_consumed;
    otp_bytes_used = rw lookup-insert h.otp_bytes_used;
    aes_keys_used = rw lookup-insert;
  }

abbrev weight : KeyEntry → ℕ
weight e = if e.consumed then 0 else 1

-- The keys that can still be consumed.
unfoldable pub live : Dict KeyEntry → ℕ
live [] = 0
live ((k, e) ∷ d) = weight e + live d

pub live-insert_le :
    (k : String) (e : KeyEntry) (d : Dict KeyEntry) → live (insert k e d) ≤ live d + 1
unfolding live insert
live-insert_le k e [] = ground arith
live-insert_le k e ((j, f) ∷ d) = ground (arith, live-insert_le k e d)

-- To consume a held key takes one from the live keys.
pub live-insert_consumed :
    (k : String) (old e : KeyEntry) (d : Dict KeyEntry)
    → lookup k d ≡ some old
    → old.consumed ≡ false
    → e.consumed ≡ true
    → live (insert k e d) + 1 ≡ live d
unfolding live insert lookup
live-insert_consumed k old e [] h p q = ground arith
live-insert_consumed k old e ((j, f) ∷ d) h p q = ground (arith, live-insert_consumed k old e d)

pub live-erase_le : (k : String) (d : Dict KeyEntry) → live (erase k d) ≤ live d
unfolding live erase
live-erase_le k [] = omega arith
live-erase_le k ((j, f) ∷ d) = ground (arith, live-erase_le k d)
