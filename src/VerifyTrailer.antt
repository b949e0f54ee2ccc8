-- ===== src/VerifyTrailer.antt =====
-- src/core/verify_trailer.py: the final report of a verifier, and its trailer line.
--
-- The report is read from the events of src/core/ndjson.py, the newest first. What a space is, and
-- what ends a line, are those of Python's text, as tests on code points. The errors are values;
-- their wording is left out.
pub mod Report
pub mod Normal
mod Tests
use claude_code_manager.Base.{
  is_digit, ℕ, zero, suc, ◌≡◌, Bool, true, false, not, ◌&&◌, ◌||◌, Option, none, some, List, [],
  ◌∷◌, ◌++◌, reverse, if◌then◌else◌, length, Text, Text_eq, String, String_eq, ◌==◌, strip, nat_eq,
  leb, codes, is_empty, any, starts_with, drop,
}
use claude_code_manager.Ndjson.{every}

-- A content block of a message: not a dict, or its type and its text.
pub data Block : Type 0 where
  not_a_dict : Block
  block : Option String → Text → Block

-- What a message holds as `content`.
pub data Content : Type 0 where
  not_a_list : Content
  blocks : List Block → Content

-- An event: its type, its message where that is a dict, its result where that is text.
pub record LogEvent : Type 0 where
  pub kind : Option String
  pub message : Option Content
  pub result : Option Text

abbrev pub has_kind : String → Option String → Bool
has_kind s none = false
has_kind s (some t) = t == s

abbrev pub block_text : String → Block → Text
block_text kind not_a_dict = []
block_text kind (block k t) = if has_kind kind k then t else []

abbrev pub blocks_text : String → List Block → Text
blocks_text kind [] = []
blocks_text kind (b ∷ bs) = block_text kind b ++ blocks_text kind bs

-- `_join_blocks`
unfoldable pub join_blocks : String → Option Content → Text
join_blocks kind none = []
join_blocks kind (some not_a_list) = []
join_blocks kind (some (blocks bs)) = blocks_text kind bs

abbrev pub extract_text_from_message : Option Content → Text
extract_text_from_message m = join_blocks "text" m

-- Text that `strip` leaves something of.
abbrev pub has_text : (ℕ → Bool) → Text → Bool
has_text is_space s = not (every is_space s)

abbrev pub is_result : LogEvent → Bool
is_result e = has_kind "result" e.kind

-- The text of an assistant event, where there is one.
unfoldable pub assistant_text_of : (ℕ → Bool) → LogEvent → Option Text
assistant_text_of is_space e =
    if has_kind "assistant" e.kind && has_text is_space (extract_text_from_message e.message)
    then some (extract_text_from_message e.message)
    else none

-- The payload of a result event, where it carries text.
unfoldable pub payload_of : (ℕ → Bool) → LogEvent → Option Text
payload_of is_space e = elim e.result [
  | none ↦ none
  | some r ↦ if has_text is_space r then some r else none
]

abbrev pub or_later {ℓ} : {A : Type ℓ} → Option A → Option A → Option A
or_later (some a) later = some a
or_later none later = later

abbrev pub or_empty : Option Text → Text
or_empty none = []
or_empty (some s) = s

-- What the loop does with an event: it answers, or goes on with the text found so far and whether a
-- result has been seen.
pub data Step : Type 0 where
  answer : Text → Step
  go_on : Option Text → Bool → Step

abbrev pub on_result : Option Text → Option Text → Step
on_result (some payload) text = answer payload
on_result none text = go_on text true

abbrev pub on_other : Option Text → Bool → Step
on_other (some text) true = answer text
on_other text seen = go_on text seen

unfoldable pub visit : (ℕ → Bool) → LogEvent → Option Text → Bool → Step
visit is_space e text seen =
    let text' = or_later text (assistant_text_of is_space e) in
    if not seen && is_result e then on_result (payload_of is_space e) text' else on_other text' seen

-- `_resolve_final_report`, over the events from the end
unfoldable pub resolve_from : (ℕ → Bool) → List LogEvent → Option Text → Bool → Text
resolve_from is_space [] text seen = or_empty text
resolve_from is_space (e ∷ es) text seen = elim (visit is_space e text seen) [
  | answer s ↦ s
  | go_on text' seen' ↦ resolve_from is_space es text' seen'
]

abbrev pub resolve_final_report : (ℕ → Bool) → List LogEvent → Text
resolve_final_report is_space es = resolve_from is_space es none false

abbrev pub is_wrapper : ℕ → Bool
is_wrapper c = nat_eq c b'`' || nat_eq c b'*'

abbrev pub strip_wrappers : (ℕ → Bool) → Text → Text
strip_wrappers is_space s = strip is_space (strip is_wrapper s)

-- The loop of `_normalize_line`: each turn but the last shortens the line.
unfoldable pub normalize_loop : (ℕ → Bool) → ℕ → Text → Text
normalize_loop is_space zero s = s
normalize_loop is_space (suc fuel) s =
    let stripped = strip_wrappers is_space s in
    let more = normalize_loop is_space fuel stripped in if stripped == s then s else more

unfoldable pub normalize_line : (ℕ → Bool) → Text → Text
normalize_line is_space line =
    let s = strip is_space line in normalize_loop is_space (suc (length s)) s

abbrev pub skip_digits : Text → Text
skip_digits [] = []
skip_digits (c ∷ s) = if is_digit c then skip_digits s else c ∷ s

-- `prefix` and what a test takes of the rest
abbrev pub after : String → Text → (Text → Bool) → Bool
after prefix s rest = starts_with (codes prefix) s && rest (drop (length (codes prefix)) s)

abbrev pub approvals : Text → Bool
approvals [] = false
approvals (c ∷ s) = is_digit c && (skip_digits s == codes " approval)")

abbrev pub mismatches : Text → Bool
mismatches [] = false
mismatches (c ∷ s) =
    is_digit c
    && not (nat_eq c b'0')
    && after " mismatch" (skip_digits s) (λ t. after " (" t approvals || after "es (" t approvals)

-- `VERIFY_RESULT_TRAILER_RE.fullmatch`
unfoldable pub is_trailer : Text → Bool
is_trailer s = after "RESULT: " s (λ t. (t == codes "clean") || mismatches t)

pub data TrailerError : Type 0 where
  report_empty trailer_missing : TrailerError

-- `verify_result_trailer_error`, of the lines of the report
unfoldable pub verify_result_trailer_error : (ℕ → Bool) → Text → List Text → Option TrailerError
verify_result_trailer_error is_space report lines =
    if not (has_text is_space report)
    then some report_empty
    else if any (λ l. is_trailer (normalize_line is_space l)) (reverse lines)
    then none
    else some trailer_missing
