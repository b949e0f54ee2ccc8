-- ===== src/VerifyTrailer/Tests.antt =====
-- Runs of src/core/verify_trailer.py on small reports.
use claude_code_manager.Base.{
  ℕ, ◌≡◌, refl, Bool, Option, none, some, [], ◌∷◌, if◌then◌else◌, Text, codes, nat_eq, arith,
}
use claude_code_manager.Ndjson.{Json, split, events, iter_ndjson_events_from_end}
use claude_code_manager.VerifyTrailer.{
  LogEvent, block, blocks, verify_result_trailer_error, normalize_line, normalize_loop, is_trailer,
  trailer_missing, resolve_final_report,
}
use claude_code_manager.VerifyTrailer.Report.{report_of, resolve_final_report-report_of}

abbrev is_space : ℕ → Bool
is_space c = nat_eq c b' '

abbrev wrapped : Text
wrapped = codes " **`RESULT: 12 mismatches (3 approval)` ** "

trailer : verify_result_trailer_error is_space (codes "x") (wrapped ∷ codes "done" ∷ []) ≡ none
unfolding verify_result_trailer_error normalize_line normalize_loop is_trailer
trailer = refl

no_trailer :
    verify_result_trailer_error is_space
      (codes "x")
      (codes "RESULT: 0 mismatches (0 approval)" ∷ [])
    ≡ some trailer_missing
unfolding verify_result_trailer_error normalize_line normalize_loop is_trailer
no_trailer = refl

-- A line that starts with a is an assistant event, one that starts with r a result.
abbrev parse : Text → Option (Option LogEvent)
parse [] = none
parse (c ∷ s) =
    if nat_eq c b'a'
    then some (
        some (record {
          kind = some "assistant";
          message = some (blocks (block (some "text") s ∷ []));
          result = none;
        }))
    else if nat_eq c b'r'
    then some (some (record { kind = some "result"; message = none; result = some s }))
    else none

abbrev json : Json LogEvent
json = record {
  loads = parse;
  loads_text = parse;
  decode = λ s. s;
  is_space = is_space;
  is_byte_space = is_space;
}

-- The result carries no text, so that the text before it is the report.
abbrev file : Text
file = codes "aone\natwo\nr  \na \n"

resolve_final_report-report_of_example :
    resolve_final_report is_space (iter_ndjson_events_from_end json 4 (some file))
    ≡ report_of is_space (events json (split file))
resolve_final_report-report_of_example =
    resolve_final_report-report_of is_space json 4 file (omega arith)
