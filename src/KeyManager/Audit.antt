-- ===== src/KeyManager/Audit.antt =====
-- `AuditLogger` of key_manager/core/persistent_store.py: a file of entries, each with the hash of the
-- one before it. JSON and SHA-256 are the parameter `Hashing`.
pub mod Chain
use qu_mail.Prelude.{
  ℕ, String, Bool, List, Option, true, ◌∷◌, none, some, [], str_eq, ◌+◌, ◌++◌, ◌&&◌, false,
  if◌then◌else◌, leb, ◌≡◌,
}

-- An entry without its hash, as `log` hashes it.
pub record AuditEntry : Type 0 where
  pub timestamp : String
  pub action : String
  pub key_id : String
  pub details : List (String × String)
  pub prev_hash : String

-- A line of the file: an entry with the hash that stands in it, or text that is no JSON object with
-- these keys.
pub data Line : Type 0 where
  entry_line : AuditEntry → String → Line
  bad_line : Line

-- `hashlib.sha256(json.dumps(entry, sort_keys=True).encode()).hexdigest()[:32]`, the hash of `b"GENESIS"`, and
-- the line that stands where an entry with its hash is written behind a line without a newline: two JSON
-- objects on one line are no JSON.
pub record Hashing : Type 0 where
  pub hash : AuditEntry → String
  pub genesis : String
  pub merged : Line → AuditEntry → String → Line
  pub merged-entry :
      (e : AuditEntry) (x : String) (f : AuditEntry) (y : String)
      → merged (entry_line e x) f y ≡ bad_line

-- The text of the file: its lines, and whether the last one has its newline.
pub record LogFile : Type 0 where
  pub lines : List Line
  pub ended : Bool

-- The file, where it exists, and `_hash_chain`.
pub record AuditLogger : Type 0 where
  pub file : Option LogFile
  pub hash_chain : String

module _ (h : Hashing) where
  -- The hash of the last line, if it can be read.
  last_hash : List Line → Option String
  last_hash [] = none
  last_hash (entry_line e x ∷ []) = some x
  last_hash (bad_line ∷ []) = none
  last_hash (l ∷ m ∷ ls) = last_hash (m ∷ ls)

  abbrev pub or_genesis : Option String → String
  or_genesis none = h.genesis
  or_genesis (some x) = x

  -- `__init__`
  unfoldable pub open_log : Option LogFile → AuditLogger
  unfolding last_hash
  open_log file = record {
    file = file;
    hash_chain = elim file [ none ↦ h.genesis | some f ↦ or_genesis (last_hash f.lines) ];
  }

  -- The lines after an entry was written to the end of the text.
  abbrev pub written : Bool → List Line → AuditEntry → List Line
  written true ls e = ls ++ entry_line e (h.hash e) ∷ []
  written false [] e = entry_line e (h.hash e) ∷ []
  written false (l ∷ []) e = h.merged l e (h.hash e) ∷ []
  written false (l ∷ m ∷ ls) e = l ∷ written false (m ∷ ls) e

  abbrev pub appended : Option LogFile → AuditEntry → List Line
  appended none e = entry_line e (h.hash e) ∷ []
  appended (some f) e = written f.ended f.lines e

  -- `log`: the file is opened for appending, which creates it.
  pub log : String → String → String → List (String × String) → AuditLogger → AuditLogger
  log timestamp action key_id details a =
      let entry : AuditEntry = record {
        timestamp = timestamp;
        action = action;
        key_id = key_id;
        details = details;
        prev_hash = a.hash_chain;
      } in
      record {
        file = some (record { lines = appended a.file entry; ended = true });
        hash_chain = h.hash entry;
      }

  -- The loop of `verify_chain`
  unfoldable pub verify_lines : String → List Line → Bool
  verify_lines prev_hash [] = true
  verify_lines prev_hash (entry_line e stored ∷ ls) =
      str_eq e.prev_hash prev_hash && str_eq stored (h.hash e) && verify_lines stored ls
  verify_lines prev_hash (bad_line ∷ ls) = false

  -- The text of a file without lines is one empty line, which is no JSON.
  abbrev pub verify_text : List Line → Bool
  verify_text [] = false
  verify_text (l ∷ ls) = verify_lines h.genesis (l ∷ ls)

  abbrev pub verify_file : Option LogFile → Bool
  verify_file none = true
  verify_file (some f) = verify_text f.lines

  unfoldable pub verify_chain : AuditLogger → Bool
  verify_chain a = verify_file a.file

-- `key_id is None or entry.get("key_id") == key_id`
abbrev wanted : Option String → AuditEntry → Bool
wanted none e = true
wanted (some k) e = str_eq e.key_id k

-- The loop of `get_entries`, newest first: it stops once it has `limit` entries, after adding one.
collect : Option String → ℕ → ℕ → List Line → List AuditEntry
collect key_id limit got [] = []
collect key_id limit got (bad_line ∷ ls) = collect key_id limit got ls
collect key_id limit got (entry_line e x ∷ ls) =
    let got' = if wanted key_id e then got + 1 else got in
    let rest = collect key_id limit got' ls in
    if wanted key_id e then e ∷ (if leb limit got' then [] else rest) else rest

reversed : List Line → List Line
reversed [] = []
reversed (l ∷ ls) = reversed ls ++ l ∷ []

unfoldable get_entries : Option String → ℕ → AuditLogger → List AuditEntry
unfolding collect reversed
get_entries key_id limit a = elim a.file [
  | none ↦ []
  | some f ↦ collect key_id limit 0 (reversed f.lines)
]
