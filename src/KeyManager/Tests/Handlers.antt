-- ===== src/KeyManager/Tests/Handlers.antt =====
-- Witnesses for the handlers and the audit log.
use qu_mail.Dict.{lookup}
use qu_mail.Prelude.{List, ◌≡◌, [], ◌∷◌, true, refl}
use qu_mail.KeyManager.Pool.{Pool}
use qu_mail.KeyManager.Api.{handle_get, handle_consume, http}
use qu_mail.KeyManager.Api.Laws.{handle_consume-once}
use qu_mail.KeyManager.Audit.{AuditEntry, Hashing, LogFile, bad_line, entry_line}
use qu_mail.KeyManager.Audit.Chain.{Event}
use qu_mail.KeyManager.Tests.Data.{codec, pool, pool-IsValid}

handle_consume-once_example :
    (q : Pool) × ((handle_consume codec 20 21 "a" pool).1 ≡ q)
    × (handle_get codec "a" q ≡ (http 410, q))
    × (handle_consume codec 22 23 "a" q ≡ (http 410, q))
unfolding handle_consume lookup
handle_consume-once_example = handle_consume-once codec 20 21 22 23 "a" pool pool-IsValid refl

-- An entry's hash is its key id, and the chain begins at "g".
abbrev hashing : Hashing
hashing = record {
  hash = λ e. e.key_id;
  genesis = "g";
  merged = λ l e x. bad_line;
  merged-entry = λ e x f y. refl;
}

abbrev first : AuditEntry
first = record { timestamp = "t"; action = "ALLOCATE"; key_id = "a"; details = []; prev_hash = "g" }

abbrev log_file : LogFile
log_file = record { lines = entry_line first "a" ∷ []; ended = true }

abbrev events : List Event
events =
    record { timestamp = "u"; action = "CONSUME"; key_id = "a"; details = [] }
    ∷ record { timestamp = "v"; action = "DELETE"; key_id = "b"; details = [] }
    ∷ []
