-- ===== src/AuditLog/Laws.antt =====
-- Proofs about backend/utils/audit_logger.py.
use qu_mail.Prelude.{
  ℕ, String, List, map, ◌≡◌, ◌++◌, append-nil, drop, [], ap, length, ◌-◌, sym, drop-append_left,
  arith, ◌∙◌, drop-add, length-drop, length-append, ◌≤◌, suc, subst, ◌∷◌, ◌+◌, some, Option,
  append_assoc, length-take_text, Bool-cases, refl, zero, ◌==◌, none, inl, inr, drop-nil, ◌⊎◌,
}
use qu_mail.AuditLog.{
  ltb, AuditEvent, AuditLogger, new_logger, safe_key_id, safe_hash, keep_last, safe_event,
  log_event, get_recent_events, dots, ◌∷◌, text_length, some, Option, take_text,
}

abbrev pub log_events : List AuditEvent → AuditLogger → AuditLogger
log_events [] a = a
log_events (e ∷ es) a = log_events es (log_event e a)

abbrev pub stored : List AuditEvent → List AuditEvent
stored es = map safe_event es

drop_lem : {A : Type 0} (i j : ℕ) (xs : List A) → i ≡ j → drop i xs ≡ drop j xs
drop_lem i j xs e = ap (λ n. drop n xs) e

-- Keeping the last of what was kept is keeping the last of all.
keep_last-append :
    {A : Type 0} (n : ℕ) (xs : List A) (y : A)
    → keep_last n (keep_last n xs ++ y ∷ []) ≡ keep_last n (xs ++ y ∷ [])
keep_last-append n xs y =
    let o = length xs - n in
    let zs = xs ++ y ∷ [] in
    let cut : drop o xs ++ y ∷ [] ≡ drop o zs =
      sym (drop-append_left o xs (y ∷ []) (omega arith)) in
    ap (keep_last n) cut
    ∙ sym (drop-add o (length (drop o zs) - n) zs)
    ∙ drop_lem _ _ zs (omega (arith, length-drop o zs, length-append xs (y ∷ [])))

log_events-keep_last :
    (es xs : List AuditEvent) (a : AuditLogger)
    → a.events ≡ keep_last a.max_entries xs
    → (log_events es a).events ≡ keep_last a.max_entries (xs ++ stored es)
unfolding log_event
log_events-keep_last [] xs a h = rw append-nil h
log_events-keep_last (e ∷ es) xs a h =
    log_events-keep_last es (xs ++ safe_event e ∷ []) (log_event e a) (
      ap (λ ys. keep_last a.max_entries (ys ++ safe_event e ∷ [])) h
      ∙ keep_last-append a.max_entries xs (safe_event e))
    ∙ ap (keep_last a.max_entries) (append_assoc xs (safe_event e ∷ []) (stored es))

log_events-count :
    (es : List AuditEvent) (a : AuditLogger)
    → (log_events es a).event_count ≡ a.event_count + length es
unfolding log_event
log_events-count [] a = omega arith
log_events-count (e ∷ es) a = omega (arith, log_events-count es (log_event e a))

max_entries-log_events :
    (es : List AuditEvent) (a : AuditLogger) → (log_events es a).max_entries ≡ a.max_entries
unfolding log_event
max_entries-log_events [] a = refl
max_entries-log_events (e ∷ es) a = max_entries-log_events es (log_event e a)

-- The ring buffer holds what it should: after any events were logged, the buffer is the last of them, in
-- their order and at most as many as it may have, and the counter has counted all of them.
pub log_events_lem :
    (es : List AuditEvent) (max_entries : ℕ)
    → ((log_events es (new_logger max_entries)).events ≡ keep_last max_entries (stored es))
      × (length (log_events es (new_logger max_entries)).events ≤ max_entries)
      × ((log_events es (new_logger max_entries)).event_count ≡ length es)
log_events_lem es n =
    let kept = log_events-keep_last es [] (new_logger n) (sym (drop-nil (0 - n))) in
    (
      kept,
      rw kept (omega (arith, length-drop (length (stored es) - n) (stored es))),
      omega (arith, log_events-count es (new_logger n)),
    )

-- A text of at most eight characters, or one of at most eight and dots.
abbrev pub IsShort : String → Type 0
IsShort k = (text_length k ≤ 8) ⊎ ((p : String) × (text_length p ≤ 8) × (k ≡ dots p))

-- The field with a key's id is short, and the one with a digest has at most twelve characters.
abbrev pub IsSafe : AuditEvent → Type 0
IsSafe e =
    ((k : String) → e.key_id ≡ some k → IsShort k)
    × ((h : String) → e.hash_prefix ≡ some h → text_length h ≤ 12)

safe_key_lem : (o : Option String) (k : String) → safe_key_id o ≡ some k → IsShort k
unfolding safe_key_id
safe_key_lem none k e = ground (arith, e)
safe_key_lem (some j) k e = elim (Bool-cases (ltb 8 (text_length j))) [
  | inl long ↦ inr (take_text 8 j, omega (arith, length-take_text 8 j), ground arith)
  | inr short ↦ inl (ground arith)
]

safe_hash_lem : (o : Option String) (k : String) → safe_hash o ≡ some k → text_length k ≤ 12
unfolding safe_hash
safe_hash_lem none k e = ground (arith, e)
safe_hash_lem (some j) k e = ground (arith, length-take_text 12 j)

safe_event-IsSafe : (e : AuditEvent) → IsSafe (safe_event e)
unfolding safe_event
safe_event-IsSafe e = (safe_key_lem e.key_id, safe_hash_lem e.hash_prefix)

abbrev pub AllSafe : List AuditEvent → Type 0
AllSafe [] = Unit
AllSafe (e ∷ es) = IsSafe e × AllSafe es

stored-AllSafe : (es : List AuditEvent) → AllSafe (stored es)
stored-AllSafe [] = tt
stored-AllSafe (e ∷ es) = (safe_event-IsSafe e, stored-AllSafe es)

drop-AllSafe : (n : ℕ) (es : List AuditEvent) → AllSafe es → AllSafe (drop n es)
drop-AllSafe zero es h = h
drop-AllSafe (suc n) [] h = tt
drop-AllSafe (suc n) (e ∷ es) h = drop-AllSafe n es h.1

-- Whatever is logged, in every event that `get_recent_events` gives the field `key_id` is a text of at most
-- eight characters, or one of at most eight and dots, and the field `hash_prefix` has at most twelve. (The field
-- `details` is kept as it was given.)
pub recent-AllSafe :
    (es : List AuditEvent) (max_entries count : ℕ)
    → AllSafe (get_recent_events count (log_events es (new_logger max_entries)))
unfolding get_recent_events
recent-AllSafe es n count =
    let kept = (log_events_lem es n).0 in
    let all =
      subst AllSafe (sym kept)
        (drop-AllSafe (length (stored es) - n) (stored es) (stored-AllSafe es)) in
    let events = (log_events es (new_logger n)).events in
    elim (Bool-cases (count == 0)) [
      | inl zero_count ↦ rw zero_count all
      | inr some_count ↦ rw some_count (drop-AllSafe (length events - count) events all)
    ]
