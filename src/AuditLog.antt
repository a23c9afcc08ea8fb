-- ===== src/AuditLog.antt =====
-- `AuditLogger` of backend/utils/audit_logger.py, a ring buffer. The time of an event is an argument, and the
-- lines that also go to Python's log are left out.
pub mod Laws
mod Tests
use qu_mail.Prelude.{
  ℕ, String, Bool, List, Option, [], drop, ◌++◌, if◌then◌else◌, ◌∷◌, length, some, ◌-◌, ◌+◌, ◌==◌,
  ltb, str_eq, none, text_length, take_text,
}
use qu_mail.Dict.{Dict, lookup, insert}

pub record AuditEvent : Type 0 where
  pub timestamp : String
  pub event_type : String
  pub security_level : Option ℕ
  pub key_id : Option String
  pub data_size : Option ℕ
  pub hash_prefix : Option String
  pub details : Option String

-- `_events`, oldest first, with its `maxlen`, and `_event_count`
pub record AuditLogger : Type 0 where
  pub events : List AuditEvent
  pub max_entries : ℕ
  pub event_count : ℕ

-- `__init__`
abbrev pub new_logger : ℕ → AuditLogger
new_logger max_entries = record { events = []; max_entries = max_entries; event_count = 0 }

-- `key_id[:8] + "..." if key_id and len(key_id) > 8 else key_id`
abbrev pub dots : String → String
dots String.[] = "..."
dots (String.◌∷◌ c s) = String.◌∷◌ c (dots s)

pub safe_key_id : Option String → Option String
safe_key_id none = none
safe_key_id (some k) = some (if ltb 8 (text_length k) then dots (take_text 8 k) else k)

-- `hash_prefix[:12] if hash_prefix else None`
pub safe_hash : Option String → Option String
safe_hash none = none
safe_hash (some h) = if str_eq h "" then none else some (take_text 12 h)

-- The last `n` of a list, which is all that a deque of that length keeps.
abbrev pub keep_last : {A : Type 0} → ℕ → List A → List A
keep_last n xs = drop (length xs - n) xs

-- The event that is stored of the arguments.
pub safe_event : AuditEvent → AuditEvent
unfolding safe_key_id safe_hash
safe_event e = record e { key_id = safe_key_id e.key_id; hash_prefix = safe_hash e.hash_prefix }

-- `log_event`, of the time and the arguments as they were given
pub log_event : AuditEvent → AuditLogger → AuditLogger
log_event e a = record a {
  events = keep_last a.max_entries (a.events ++ safe_event e ∷ []);
  event_count = a.event_count + 1;
}

-- `events[-count:]`, which for 0 is every event
pub get_recent_events : ℕ → AuditLogger → List AuditEvent
get_recent_events count a = if count == 0 then a.events else keep_last count a.events

abbrev pub or_zero : Option ℕ → ℕ
or_zero none = 0
or_zero (some n) = n

abbrev pub count_types : List AuditEvent → Dict ℕ → Dict ℕ
count_types [] counts = counts
count_types (e ∷ es) counts =
    count_types es (insert e.event_type (or_zero (lookup e.event_type counts) + 1) counts)

-- `get_stats`: the events so far, those in the buffer, and how many there are of each type
unfoldable pub event_stats : AuditLogger → ℕ × ℕ × Dict ℕ
event_stats a = (a.event_count, length a.events, count_types a.events [])

-- `clear`
unfoldable pub clear_events : AuditLogger → AuditLogger
clear_events a = record a { events = [] }
