-- ===== src/KeyManager/Audit/Chain.antt =====
-- Proofs about the hash chain of `AuditLogger`.
use qu_mail.Prelude.{
  String, List, ◌≡◌, [], true, ◌++◌, ◌∷◌, arith, ◌≢◌, Option, refl, some, false, eq_iff, none, Bool,
}
use qu_mail.KeyManager.Audit.{
  AuditEntry, Hashing, Line, verify_lines, entry_line, bad_line, true, Option, log, some,
  verify_chain, AuditLogger, false, LogFile, written, Bool,
}

module _ (h : Hashing) where
  -- The hash that the chain of these lines ends with.
  chain_end : String → List Line → String
  chain_end prev [] = prev
  chain_end prev (entry_line e x ∷ ls) = chain_end x ls
  chain_end prev (bad_line ∷ ls) = chain_end prev ls

  abbrev pub lines_of : Option LogFile → List Line
  lines_of none = []
  lines_of (some f) = f.lines

  -- The last line of the file, if there is one, has its newline.
  abbrev pub is_whole : Option LogFile → Bool
  is_whole none = true
  is_whole (some f) = f.ended

  -- The file verifies and is whole, and the logger holds the hash at its end.
  record Linked (a : AuditLogger) : Type 0 where
    verified : verify_chain h a ≡ true
    linked : a.hash_chain ≡ chain_end h.genesis (lines_of a.file)
    whole : is_whole a.file ≡ true

-- A call of `log`.
pub record Event : Type 0 where
  pub timestamp : String
  pub action : String
  pub key_id : String
  pub details : List (String × String)

pub log_all : Hashing → List Event → AuditLogger → AuditLogger
unfolding log
log_all h [] a = a
log_all h (e ∷ es) a = log_all h es (log h e.timestamp e.action e.key_id e.details a)

module _ (h : Hashing) where
  rest_fails :
      (l : Line) (ls : List Line)
      → ((prev : String) → verify_lines h prev ls ≡ false)
      → (prev : String) → verify_lines h prev (l ∷ ls) ≡ false
  unfolding verify_lines
  rest_fails (entry_line e x) ls fails prev = ground (arith, fails x)
  rest_fails bad_line ls fails prev = refl

  -- Where the last line, an entry, has no newline, the next entry is written onto it and the chain fails to
  -- verify from then on.
  merged_fails :
      (before : List Line) (e f : AuditEntry) (x prev : String)
      → verify_lines h prev (written h false (before ++ entry_line e x ∷ []) f) ≡ false
  unfolding verify_lines
  merged_fails [] e f x prev = rw (h.merged-entry e x f (h.hash f)) refl
  merged_fails (l ∷ []) e f x prev = rest_fails l _ (merged_fails [] e f x) prev
  merged_fails (l ∷ m ∷ ms) e f x prev = rest_fails l _ (merged_fails (m ∷ ms) e f x) prev

  -- A line whose entry was altered, and whose hash was left, makes the chain fail to verify, unless
  -- the altered entry has the same hash.
  pub verify_lines-altered :
      (prev : String) (before after : List Line) (e altered : AuditEntry) (x : String)
      → verify_lines h prev (before ++ entry_line e x ∷ after) ≡ true
      → h.hash altered ≢ h.hash e
      → verify_lines h prev (before ++ entry_line altered x ∷ after) ≡ false
  unfolding verify_lines
  verify_lines-altered prev [] after e altered x ok_lines differ =
      ground (arith, eq_iff x (h.hash e), eq_iff x (h.hash altered))
  verify_lines-altered prev (entry_line y stored ∷ ls) after e altered x ok_lines differ =
      ground (arith, verify_lines-altered stored ls after e altered x)
  verify_lines-altered prev (bad_line ∷ ls) after e altered x ok_lines differ = refl
