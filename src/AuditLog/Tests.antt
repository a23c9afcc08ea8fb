-- ===== src/AuditLog/Tests.antt =====
-- Witnesses for the audit log.
use qu_mail.Prelude.{some, ◌∷◌, none, [], ◌≡◌, length, ◌≤◌}
use qu_mail.AuditLog.{AuditEvent, new_logger, keep_last, get_recent_events, some, none, [], length}
use qu_mail.AuditLog.Laws.{log_events, stored, log_events_lem, AllSafe, recent-AllSafe}

abbrev start_event : AuditEvent
start_event = record {
  timestamp = "t";
  event_type = "ENCRYPT_START";
  security_level = some 2;
  key_id = some "0123456789";
  data_size = some 5;
  hash_prefix = some "0123456789abcdef";
  details = none;
}

log_events_lem_example :
    ((log_events (start_event ∷ start_event ∷ []) (new_logger 1)).events
      ≡ keep_last 1 (stored (start_event ∷ start_event ∷ [])))
    × (length (log_events (start_event ∷ start_event ∷ []) (new_logger 1)).events ≤ 1)
    × ((log_events (start_event ∷ start_event ∷ []) (new_logger 1)).event_count ≡ 2)
log_events_lem_example = log_events_lem (start_event ∷ start_event ∷ []) 1

recent-AllSafe_example :
    AllSafe (get_recent_events 5 (log_events (start_event ∷ []) (new_logger 500)))
recent-AllSafe_example = recent-AllSafe (start_event ∷ []) 500 5
