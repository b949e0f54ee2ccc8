-- ===== src/Runs/Resolve.antt =====
-- The outcome table of src/core/runs.py.
use claude_code_manager.Base.{
  ℕ, ◌-◌, ◌*◌, ◌/◌, Bool, true, false, not, ◌&&◌, ◌||◌, Option, none, some, List, [], ◌∷◌, ◌++◌,
  if◌then◌else◌, is_empty, Text, ltb, String, String_eq, Text_eq, ℕ_eq, ◌==◌, Outcome, ok, ◌>>=◌,
}
use claude_code_manager.Ndjson.{Json}
use claude_code_manager.Runs.Log.{Event, summarize_result, Translator, project_raw_file}
use claude_code_manager.Runs.Process.{
  HolderProcess, RunError, Recorded, Host, is_run_alive, Inode, Scan, leftover_holders_for,
}

pub data RunOutcome : Type 0 where
  completed died stalled never_started : RunOutcome
  running : RunOutcome

pub data LivenessField : Type 0 where
  field_pid field_pid_start field_started_at : LivenessField

pub data Reason : Type 0 where
  no_reason uncovered_alive transport_not_covered raw_missing_alive legacy_raw_missing : Reason
  died_without_result : Reason
  silent_for : ℕ → List LivenessField → Reason
  missing_fields : List LivenessField → Reason

pub record RunResolution : Type 0 where
  pub outcome : RunOutcome
  pub reason : Reason
  pub completed_at : Option ℕ
  pub leftover_holders : List HolderProcess

pub record RawLog : Type 0 where
  pub content : Text
  pub changed : Option ℕ
  pub inode : Option Inode

abbrev pub when_none {ℓ} : {A : Type ℓ} → Option A → LivenessField → List LivenessField
when_none none f = f ∷ []
when_none (some a) f = []

-- `_missing_liveness_fields`
abbrev pub missing_liveness_fields : Recorded → List LivenessField
missing_liveness_fields r =
    when_none r.pid field_pid
    ++ (when_none r.pid_start field_pid_start ++ when_none r.started_at field_started_at)

-- Backend types whose transport has no raw log to follow.
abbrev pub uncovered : Option String → Bool
uncovered none = false
uncovered (some t) = t == "opencode" || (t == "antigravity") || (t == "tui-cli")

-- In microseconds.
abbrev pub no_output_report_threshold : ℕ
no_output_report_threshold = 2 * 3600 * 1000000

abbrev pub resolution : RunOutcome → Reason → Option ℕ → List HolderProcess → RunResolution
resolution outcome reason completed_at leftovers = record {
  outcome = outcome;
  reason = reason;
  completed_at = completed_at;
  leftover_holders = leftovers;
}

-- How long a log has been silent, 0 where its last change is unknown.
abbrev pub silence : Option ℕ → ℕ → ℕ
silence none now = 0
silence (some t) now = now - t

abbrev pub note_missing : List LivenessField → Reason
note_missing [] = no_reason
note_missing (f ∷ fs) = missing_fields (f ∷ fs)

-- A run without a result event that counts as alive.
abbrev pub alive_row : Option ℕ → ℕ → List LivenessField → RunResolution
alive_row changed now missing =
    if ltb no_output_report_threshold (silence changed now)
    then resolution stalled (silent_for (silence changed now / 1000000) missing) changed []
    else resolution running (note_missing missing) changed []

abbrev pub uncovered_row : Bool → Option ℕ → RunResolution
uncovered_row effectively_alive changed =
    if effectively_alive
    then resolution running uncovered_alive changed []
    else resolution died transport_not_covered changed []

abbrev pub no_log_row : Bool → RunResolution
no_log_row effectively_alive =
    if effectively_alive
    then resolution running raw_missing_alive none []
    else resolution died legacy_raw_missing none []

abbrev pub log_row :
    Option Event → Bool → Option ℕ → ℕ → List LivenessField → List HolderProcess → RunResolution
log_row (some result) effectively_alive changed now missing leftovers =
    resolution completed no_reason changed leftovers
log_row none effectively_alive changed now missing leftovers =
    if effectively_alive
    then alive_row changed now missing
    else resolution died died_without_result changed leftovers

abbrev pub leftovers_of : Host → Bool → Option Scan → RawLog → Option ℕ → List HolderProcess
leftovers_of host alive none raw pid = []
leftovers_of host alive (some scan) raw pid =
    if alive then [] else leftover_holders_for raw.inode scan pid host.own_pid

abbrev pub is_none {ℓ} : {A : Type ℓ} → Option A → Bool
is_none none = true
is_none (some a) = false

abbrev pub result_of : {V : Type 0} → Json V → Translator V → Option RawLog → Option Event
result_of json t none = none
result_of json t (some raw) = summarize_result (project_raw_file json t raw.content)

abbrev pub changed_of : Option RawLog → Option ℕ
changed_of none = none
changed_of (some raw) = raw.changed

-- The rows of `resolve_run` behind the probe.
unfoldable pub rows :
    Host → Option RawLog → Recorded → Bool → Option Event → Option Scan → ℕ → Bool → RunResolution
rows host raw r is_uncovered result scan now alive =
    let missing = missing_liveness_fields r in
    let effectively_alive = alive || not (is_empty missing) in
    if is_uncovered && is_none result
    then uncovered_row effectively_alive (changed_of raw)
    else elim raw [
      | none ↦ no_log_row effectively_alive
      | some log ↦
          log_row result effectively_alive log.changed now missing
            (leftovers_of host alive scan log r.pid)
    ]

unfoldable pub resolve_run :
    {V : Type 0}
    → Json V
    → Translator V
    → Host
    → Option RawLog
    → Recorded
    → Option String
    → Option Scan
    → ℕ
    → Outcome RunError RunResolution
resolve_run json t host raw r backend scan now =
    if is_none raw && is_none r.pid
    then ok (resolution never_started no_reason none [])
    else is_run_alive host r >>= λ alive.
        ok (rows host raw r (uncovered backend) (result_of json t raw) scan now alive)
