-- ===== src/Logging/Kept.antt =====
-- Which records the log worker shows and writes.
use iot_gathering.Common.{
  String, Bool, true, false, Bool-cases, not, ◌&&◌, ◌||◌, Option, none, some, List, [], ◌∷◌, ◌++◌,
  ◌≡◌, refl, sym, ap, ◌∙◌, inl, inr, arith, keep, ◌==◌, if◌then◌else◌, string_eq,
}
use mathlib.Core.List.{append_assoc, append-nil}
use iot_gathering.Common.Text.{text_or, ◌<>◌}
use iot_gathering.Common.Dict.{Dict}
use iot_gathering.Logging.Worker.{
  Input, Worker, Disk, default_text, normalize_record, is_error_record, is_audit_record, is_dropped,
  format_record, text_take, log_path, daily_log, file_log, drain_once, drain_all,
}
use iot_gathering.Logging.Shown.{
  error, severity, is_wanted, label, format_source-label, is_dropped-wanted, severity-error,
}

both_tests {ℓ} :
    {A : Type ℓ} (a b : Bool) (l : List A)
    → (if a then if b then l else [] else []) ≡ (if a && b then l else [])
both_tests a b l = ground arith

module _ (upper lower : String → String) (dumps : Dict String String → String) (now : String) where
  -- The level that a record is shown with, its line, and whether it is wanted.
  abbrev pub level_of : Input → String
  level_of i = upper (default_text i.level "INFO")

  abbrev pub shown_line : Input → String
  shown_line i =
      text_or i.timestamp now
      <> " ["
      <> level_of i
      <> "] "
      <> label (default_text i.source "app") i.fields
      <> " "
      <> default_text i.message ""
      <> " "
      <> dumps i.fields

  abbrev pub date_of : Input → String
  date_of i = text_take 10 (text_or i.timestamp now)

  -- The line that an act of the user leaves in the audit log.
  abbrev pub audit_lines : Disk → Option String → Input → List (String × String)
  audit_lines disk none i = []
  audit_lines disk (some dir) i =
      let source = lower (default_text i.source "app") in
      let path = log_path dir "industrial_gateway_audit" (date_of i) in
      if (source == "button" || source == "ui" || source == "config" || source == "settings")
        && disk path
      then (path, shown_line i) ∷ []
      else []

  abbrev pub shown_lines : List (Input × Disk) → List String
  shown_lines [] = []
  shown_lines ((i, disk) ∷ inputs) = shown_line i ∷ shown_lines inputs

  abbrev pub is_shown : Worker → Input × Disk → Bool
  is_shown w (i, disk) = is_wanted w (severity (level_of i))

  line_of-record : (i : Input) → format_record dumps (normalize_record upper now i) ≡ shown_line i
  line_of-record i = rw (format_source-label (normalize_record upper now i)) refl

  abbrev shown_after : Worker → Input → Disk → Worker
  shown_after w i disk =
      let r = normalize_record upper now i in
      record w {
        display = w.display ++ shown_line i ∷ [];
        files = w.files ++ file_log disk upper lower w r (shown_line i);
      }

  module _ (twice : (s : String) → upper (upper s) ≡ upper s) where
    is_dropped-record :
        (w : Worker) (i : Input)
        → is_dropped upper w (normalize_record upper now i)
          ≡ not (is_wanted w (severity (level_of i)))
    is_dropped-record w i =
        rw (twice (default_text i.level "INFO")) (is_dropped-wanted w (level_of i))

    hides :
        (w : Worker) (i : Input) (disk : Disk)
        → is_wanted w (severity (level_of i)) ≡ false
        → drain_once upper lower dumps now w i disk ≡ w
    unfolding drain_once
    hides w i disk n =
        let d : is_dropped upper w (normalize_record upper now i) ≡ true =
          is_dropped-record w i ∙ ap not n in
        rw d refl

    shows :
        (w : Worker) (i : Input) (disk : Disk)
        → is_wanted w (severity (level_of i)) ≡ true
        → drain_once upper lower dumps now w i disk ≡ shown_after w i disk
    unfolding drain_once
    shows w i disk y =
        let d : is_dropped upper w (normalize_record upper now i) ≡ false =
          is_dropped-record w i ∙ ap not y in
        rw (d, line_of-record i) refl

    -- A drain of the queue shows each error record, each ordinary record where the runtime log is on, and each debug
    -- record where both settings are on, once and in their order, after what was shown before: the time, the level
    -- in upper case, the source, with what a driver or a plugin is where the data names it, the message and the
    -- data. The upper case of an upper case text is to be that text.
    pub display-drain_all :
        (w : Worker) (inputs : List (Input × Disk))
        → (drain_all upper lower dumps now w inputs).display
          ≡ w.display ++ shown_lines (keep (is_shown w) inputs)
    unfolding drain_all
    display-drain_all w [] = sym (append-nil w.display)
    display-drain_all w ((i, disk) ∷ inputs) =
        elim (Bool-cases (is_wanted w (severity (level_of i)))) [
          | inl y ↦
              ap (λ v. (drain_all upper lower dumps now v inputs).display) (shows w i disk y)
              ∙ (rw y (
                  display-drain_all (shown_after w i disk) inputs
                  ∙ append_assoc w.display (shown_line i ∷ [])
                      (shown_lines (keep (is_shown w) inputs))))
          | inr n ↦
              ap (λ v. (drain_all upper lower dumps now v inputs).display) (hides w i disk n)
              ∙ (rw n (display-drain_all w inputs))
        ]

    audit_log-lines :
        (disk : Disk) (dir : Option String) (i : Input)
        → (if is_audit_record lower (normalize_record upper now i)
            then daily_log disk dir "industrial_gateway_audit"
                (normalize_record upper now i)
                (shown_line i)
            else [])
          ≡ audit_lines disk dir i
    audit_log-lines disk none i = ground arith
    audit_log-lines disk (some dir) i =
        both_tests (is_audit_record lower (normalize_record upper now i))
          (disk (log_path dir "industrial_gateway_audit" (date_of i)))
          ((log_path dir "industrial_gateway_audit" (date_of i), shown_line i) ∷ [])

    file_log-error :
        (w : Worker) (i : Input) (disk : Disk) (dir error_dir : String)
        → severity (level_of i) ≡ error
        → w.log_dir ≡ some dir
        → w.error_log_dir ≡ some error_dir
        → disk (log_path dir "industrial_gateway" (date_of i)) ≡ true
        → disk (log_path error_dir "industrial_gateway_error" (date_of i)) ≡ true
        → file_log disk upper lower w (normalize_record upper now i) (shown_line i)
          ≡ (log_path dir "industrial_gateway" (date_of i), shown_line i)
            ∷ (log_path error_dir "industrial_gateway_error" (date_of i), shown_line i)
            ∷ audit_lines disk w.audit_log_dir i
    file_log-error w i disk dir error_dir h d e ok_log ok_error =
        let is_error : is_error_record upper (normalize_record upper now i) ≡ true =
          rw (twice (default_text i.level "INFO")) (severity-error (level_of i) h) in
        rw (is_error, d, e, ok_log, ok_error, audit_log-lines disk w.audit_log_dir i) refl

    -- Where the directories of the log and of the error log are set and their files of the day can be written, a record
    -- whose level in upper case is ERROR, CRITICAL or EXCEPTION is shown and its line appended to both files,
    -- whatever the two settings, and then to the audit log of the day if it is an act of the user, that directory is
    -- set and its file can be written. The upper case of an upper case text is to be that text.
    pub drain_once-error :
        (w : Worker) (i : Input) (disk : Disk) (dir error_dir : String)
        → severity (level_of i) ≡ error
        → w.log_dir ≡ some dir
        → w.error_log_dir ≡ some error_dir
        → disk (log_path dir "industrial_gateway" (date_of i)) ≡ true
        → disk (log_path error_dir "industrial_gateway_error" (date_of i)) ≡ true
        → ((drain_once upper lower dumps now w i disk).display ≡ w.display ++ shown_line i ∷ [])
          × ((drain_once upper lower dumps now w i disk).files
              ≡ w.files
                ++ ((log_path dir "industrial_gateway" (date_of i), shown_line i)
                    ∷ (log_path error_dir "industrial_gateway_error" (date_of i), shown_line i)
                    ∷ audit_lines disk w.audit_log_dir i))
    drain_once-error w i disk dir error_dir h d e ok_log ok_error =
        let is_shown = shows w i disk (ap (is_wanted w) h) in
        (
          ap (λ v. v.display) is_shown,
          ap (λ v. v.files) is_shown
              ∙ ap (λ lines. w.files ++ lines)
                  (file_log-error w i disk dir error_dir h d e ok_log ok_error),
        )
