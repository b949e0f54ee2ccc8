-- ===== src/Runs/Tests.antt =====
-- Runs of the outcome table of src/core/runs.py on small facts.
use claude_code_manager.Base.{
  split_from, ℕ, zero, suc, ◌≡◌, refl, Bool, true, false, Option, none, some, List, [], ◌∷◌, ◌++◌,
  if◌then◌else◌, Text, codes, nat_eq, arith, ok, All, join_spaced,
}
use claude_code_manager.Ndjson.{Json, split, events, every, iter_ndjson_events, parse_ndjson_line}
use claude_code_manager.Runs.Log.{
  Translator, string, null, boolean, parse_raw_lines, raw_pieces, find_newline, summarize,
  project_from,
}
use claude_code_manager.Runs.Process.{
  Recorded, Host, is_run_alive, read_pid_stat, aware, Scan, leftover_holders_for,
}
use claude_code_manager.Runs.Resolve.{
  RawLog, RunResolution, died, resolution, died_without_result, resolve_run, rows,
}
use claude_code_manager.Runs.Liveness.{IsForeign, resolve_run-IsForeign}
use claude_code_manager.Runs.RawLines.{IsStrict, non_null, parse_raw_lines-events}
use claude_code_manager.Runs.Table.{
  IsProvenDead, decision, resolve_run-decision, resolve_run-IsProvenDead,
}

abbrev parse : Text → Option (Option Text)
parse [] = none
parse (c ∷ s) = if nat_eq c b'{' then some (some s) else none

abbrev json : Json Text
json = record {
  loads = parse;
  loads_text = parse;
  decode = λ s. s;
  is_space = λ c. nat_eq c b' ';
  is_byte_space = λ c. nat_eq c b' ';
}

parse-blank : (s : Text) → every (λ c. nat_eq c b' ') s ≡ true → parse s ≡ none
parse-blank [] h = refl
parse-blank (c ∷ s) h = ground (arith, h)

json-IsStrict : IsStrict json
json-IsStrict = record {
  blank_bytes = parse-blank;
  blank_decoded = λ s h. h;
  blank_text = parse-blank;
}

abbrev log_bytes : Text
log_bytes = codes "{one\n\n{two"

parse_raw_lines-events_example :
    non_null (parse_raw_lines json log_bytes) ≡ events json (split log_bytes)
parse_raw_lines-events_example = parse_raw_lines-events json log_bytes json-IsStrict

abbrev echo : Translator Text
echo = record {
  State = Unit;
  fresh = tt;
  translate = λ state v.
      (record { kind = string "assistant"; subtype = null; is_error = boolean false } ∷ [], state);
}

-- A host on which no process is left.
abbrev empty_host : Host
empty_host = record {
  stat = λ pid. none;
  boot_time = 5;
  own_pid = 77;
  is_space = λ c. nat_eq c b' ';
}

abbrev recorded : Recorded
recorded = record { pid = some 42; pid_start = some (codes "900"); started_at = some (aware 9) }

abbrev log : Option RawLog
log = some (record { content = log_bytes; changed = some 20; inode = some (1, 2) })

abbrev scan : Option Scan
scan = some (
    (
      (1, 2),
      record { pid = 42; cmdline = codes "agent" }
          ∷ record { pid = 50; cmdline = codes "child" }
          ∷ record { pid = 1; cmdline = [] }
          ∷ [],
    )
    ∷ [])

abbrev outcome : RunResolution
outcome =
    resolution died died_without_result (some 20)
      (record { pid = 50; cmdline = codes "child" } ∷ [])

gone : is_run_alive empty_host recorded ≡ ok false
unfolding is_run_alive read_pid_stat
gone = refl

resolve_run-decision_example :
    (res : RunResolution) × (resolve_run json echo empty_host log recorded none scan 30 ≡ ok res)
    × (res.outcome ≡ decision json echo log recorded none 30 false)
resolve_run-decision_example =
    resolve_run-decision json echo empty_host log recorded none scan 30 false gone

resolved : resolve_run json echo empty_host log recorded none scan 30 ≡ ok outcome
unfolding resolve_run rows is_run_alive read_pid_stat parse_raw_lines raw_pieces find_newline
    summarize project_from leftover_holders_for iter_ndjson_events parse_ndjson_line
resolved = refl

resolve_run-IsProvenDead_example : IsProvenDead json echo empty_host log recorded
resolve_run-IsProvenDead_example =
    resolve_run-IsProvenDead json echo empty_host log recorded none scan 30 outcome resolved refl

resolve_run-IsForeign_example : All (IsForeign (some 42) 77) outcome.leftover_holders
resolve_run-IsForeign_example =
    resolve_run-IsForeign json echo empty_host log recorded none scan 30 outcome resolved

abbrev is_blank : ℕ → Bool
is_blank c = nat_eq c b' '

abbrev ones : ℕ → List Text → List Text
ones zero ws = ws
ones (suc n) ws = codes "1" ∷ ones n ws

abbrev fields : List Text
fields = codes "S" ∷ ones 18 (codes "900" ∷ [])

-- The name of the process has a space and a closing parenthesis.
stat_read :
    read_pid_stat is_blank (some (codes "42 (a) b" ++ b')' ∷ b' ' ∷ join_spaced fields))
    ≡ some (codes "900", codes "S")
unfolding read_pid_stat split_from
stat_read = refl
