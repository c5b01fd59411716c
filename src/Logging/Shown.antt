-- ===== src/Logging/Shown.antt =====
-- What a record of the log worker is: how severe, whether the settings want it, and how its source is shown.
use iot_gathering.Common.{
  String, Bool, true, false, Bool-cases, not, ◌&&◌, ◌||◌, Option, none, some, List, [], ◌∷◌, ◌≡◌,
  refl, inl, inr, arith, ◌==◌, if◌then◌else◌, string_eq,
}
use iot_gathering.Common.Text.{is_empty, ◌<>◌}
use iot_gathering.Common.Dict.{Dict, get}
use iot_gathering.Logging.Worker.{Record, Worker, is_error_level, or_key, bracketed, format_source}

pub data Severity : Type 0 where
  debug ordinary error : Severity

abbrev pub severity : String → Severity
severity level =
    if level == "DEBUG"
    then debug
    else if level == "ERROR" || level == "CRITICAL" || level == "EXCEPTION"
    then error
    else ordinary

-- What each setting is for: the runtime log is all but errors, and debug records want both settings.
abbrev pub is_wanted : Worker → Severity → Bool
is_wanted w debug = w.debug_enabled && w.runtime_log_enabled
is_wanted w ordinary = w.runtime_log_enabled
is_wanted w error = true

-- The first of some keys that has a text, or no text.
abbrev pub given_or : Option String → String → String
given_or none other = other
given_or (some s) other = if is_empty s then other else s

abbrev pub first_given : Dict String String → List String → String
first_given fields [] = ""
first_given fields (key ∷ keys) = given_or (get fields key) (first_given fields keys)

abbrev pub labelled : (name detail : String) → String
labelled name detail =
    if is_empty detail then "[" <> name <> "]" else "[" <> name <> "][" <> detail <> "]"

-- The label of a source: a driver and a sink, also as a plugin, with what they are.
abbrev pub label : String → Dict String String → String
label source fields =
    if source == "driver"
    then labelled "driver" (first_given fields ("driver" ∷ "driver_type" ∷ []))
    else if source == "sink" || source == "plugin"
    then labelled "plugin" (first_given fields ("plugin" ∷ "plugin_type" ∷ "sink_type" ∷ []))
    else labelled source ""

bracketed-two :
    (name : String) (a b : Option String)
    → bracketed name (or_key a b) ≡ labelled name (given_or a (given_or b ""))
bracketed-two name none none = refl
bracketed-two name none (some t) = ground arith
bracketed-two name (some s) none = ground arith
bracketed-two name (some s) (some t) = ground arith

bracketed-three :
    (name : String) (a b c : Option String)
    → bracketed name (or_key (or_key a b) c)
      ≡ labelled name (given_or a (given_or b (given_or c "")))
bracketed-three name none b c = bracketed-two name b c
bracketed-three name (some s) b c = elim (Bool-cases (is_empty s)) [
  | inl e ↦ rw e (bracketed-two name b c)
  | inr e ↦ rw (e, e, e) refl
]

pub format_source-label : (r : Record) → format_source r ≡ label r.source r.fields
unfolding format_source
format_source-label r =
    rw
      (
        bracketed-two "driver" (get r.fields "driver") (get r.fields "driver_type"),
        bracketed-three "plugin" (get r.fields "plugin") (get r.fields "plugin_type")
            (get r.fields "sink_type"),
      )
      refl

pub is_dropped-wanted :
    (w : Worker) (level : String)
    → (level == "DEBUG" && not w.debug_enabled
        || not w.runtime_log_enabled && not (is_error_level level))
      ≡ not (is_wanted w (severity level))
is_dropped-wanted w level = elim (Bool-cases (level == "DEBUG")) [
  | inl e ↦ rw ((string_eq.beq_iff level "DEBUG").0 e) (ground arith)
  | inr n ↦ rw n (ground arith)
]

pub severity-error : (level : String) → severity level ≡ error → is_error_level level ≡ true
severity-error level h = of_tests (level == "DEBUG") (is_error_level level) h
  where
    of_tests :
        (d e : Bool) → (if d then debug else if e then error else ordinary) ≡ error → e ≡ true
    of_tests true e k = absurd (cc k)
    of_tests false true k = refl
    of_tests false false k = absurd (cc k)
