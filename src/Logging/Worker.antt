-- ===== src/Logging/Worker.antt =====
-- `AsyncLogWorker.drain_once` and what it calls. `files` are the lines that were appended to files, each with
-- the path of its file; a write that raises an OSError leaves nothing. The text of the data is `json.dumps`, an
-- argument.

use iot_gathering.Common.{
  ℕ, String, Bool, not, ◌&&◌, ◌||◌, Option, none, some, List, [], ◌∷◌, ◌++◌, ◌==◌, if◌then◌else◌,
  string_eq,
}
use iot_gathering.Common.Text.{is_empty, text_or, ◌<>◌}
use iot_gathering.Common.Dict.{Dict, get}

-- A record as it is put in the queue, where a key may be missing; its data is by key, each value as its text.
pub record Input : Type 0 where
  pub timestamp : Option String
  pub level : Option String
  pub source : Option String
  pub message : Option String
  pub fields : Dict String String

pub record Record : Type 0 where
  pub timestamp : String
  pub level : String
  pub source : String
  pub message : String
  pub fields : Dict String String

-- The settings of the worker and what it writes.
pub record Worker : Type 0 where
  pub debug_enabled : Bool
  pub runtime_log_enabled : Bool
  pub log_dir : Option String
  pub error_log_dir : Option String
  pub audit_log_dir : Option String
  pub display : List String
  pub files : List (String × String)

abbrev pub default_text : Option String → String → String
default_text none d = d
default_text (some s) d = s

-- `_normalize_record`; `upper` is `str.upper` and `now` the text of the time.
abbrev pub normalize_record : (String → String) → String → Input → Record
normalize_record upper now r = record {
  timestamp = text_or r.timestamp now;
  level = upper (default_text r.level "INFO");
  source = default_text r.source "app";
  message = default_text r.message "";
  fields = r.fields;
}

abbrev pub is_error_level : String → Bool
is_error_level level = level == "ERROR" || level == "CRITICAL" || level == "EXCEPTION"

-- `_is_error_record`
abbrev pub is_error_record : (String → String) → Record → Bool
is_error_record upper r = is_error_level (upper r.level)

-- `_is_audit_record`; `lower` is `str.lower`.
abbrev pub is_audit_source : String → Bool
is_audit_source source =
    source == "button" || source == "ui" || source == "config" || source == "settings"

abbrev pub is_audit_record : (String → String) → Record → Bool
is_audit_record lower r = is_audit_source (lower r.source)

-- `data.get(a) or data.get(b)`, where neither may be there
abbrev pub or_key : Option String → Option String → Option String
or_key none other = other
or_key (some s) other = if is_empty s then other else some s

abbrev pub bracketed : String → Option String → String
bracketed name none = "[" <> name <> "]"
bracketed name (some s) = if is_empty s then "[" <> name <> "]" else "[" <> name <> "][" <> s <> "]"

-- `_format_source`
unfoldable pub format_source : Record → String
format_source r =
    if r.source == "driver"
    then bracketed "driver" (or_key (get r.fields "driver") (get r.fields "driver_type"))
    else if r.source == "sink" || r.source == "plugin"
    then bracketed "plugin" (
        or_key (or_key (get r.fields "plugin") (get r.fields "plugin_type"))
          (get r.fields "sink_type"))
    else "[" <> r.source <> "]"

-- `_format_record`
abbrev pub format_record : (Dict String String → String) → Record → String
format_record dumps r =
    r.timestamp
    <> " ["
    <> r.level
    <> "] "
    <> format_source r
    <> " "
    <> r.message
    <> " "
    <> dumps r.fields

-- `text[:n]`
unfoldable pub text_take : ℕ → String → String
text_take Prim.Native.Nat.zero s = ""
text_take (Prim.Native.Nat.suc n) String.[] = ""
text_take (Prim.Native.Nat.suc n) (String.◌∷◌ c s) = String.◌∷◌ c (text_take n s)

-- `_log_date`
abbrev pub log_date : Record → String
log_date r = text_take 10 r.timestamp

-- Whether a path is opened and written without an OSError.
abbrev pub Disk : Type 0
Disk = String → Bool

-- `log_dir / f"{prefix}_{_log_date(record)}.log"`
abbrev pub log_path : (dir prefix date : String) → String
log_path dir prefix date = dir <> "/" <> prefix <> "_" <> date <> ".log"

-- `_write_daily_log`
abbrev pub daily_log :
    Disk → Option String → (prefix : String) → Record → String → List (String × String)
daily_log disk none prefix r line = []
daily_log disk (some dir) prefix r line =
    if disk (log_path dir prefix (log_date r))
    then (log_path dir prefix (log_date r), line) ∷ []
    else []

-- `_write_file_log`
abbrev pub file_log :
    Disk → (String → String) → (String → String) → Worker → Record → String → List (String × String)
file_log disk upper lower w r line =
    daily_log disk w.log_dir "industrial_gateway" r line
    ++ (if is_error_record upper r
        then daily_log disk w.error_log_dir "industrial_gateway_error" r line
        else [])
    ++ (if is_audit_record lower r
        then daily_log disk w.audit_log_dir "industrial_gateway_audit" r line
        else [])

-- The two early returns of `drain_once`.
abbrev pub is_dropped : (String → String) → Worker → Record → Bool
is_dropped upper w r =
    r.level == "DEBUG" && not w.debug_enabled
    || not w.runtime_log_enabled && not (is_error_record upper r)

module _ (upper lower : String → String) (dumps : Dict String String → String) (now : String) where
  -- `drain_once` with a record in the queue
  unfoldable pub drain_once : Worker → Input → Disk → Worker
  drain_once w i disk =
      let r = normalize_record upper now i in
      if is_dropped upper w r then w else record w {
        display = w.display ++ format_record dumps r ∷ [];
        files = w.files ++ file_log disk upper lower w r (format_record dumps r);
      }

  -- `while self.logger.drain_once(timeout=0): pass`, with the disk that each record meets
  unfoldable pub drain_all : Worker → List (Input × Disk) → Worker
  unfolding drain_once
  drain_all w [] = w
  drain_all w ((i, disk) ∷ inputs) = drain_all (drain_once w i disk) inputs
