-- ===== src/Messages/Notices.antt =====
-- src/core/message_aggregator.py: the events that become one message of their own, and the table of
-- their handlers.
--
-- A text that an event lacks is empty, as the handlers read it. The model names are ASCII, so that
-- `lower` and `capitalize` are the ASCII ones.
use claude_code_manager.Base.{
  ℕ, ◌+◌, ◌-◌, ◌/◌, ◌%◌, Bool, true, false, ◌&&◌, Option, none, some, List, [], ◌∷◌, ◌++◌,
  if◌then◌else◌, nat_eq, ltb, leb, is_empty, Text, codes, String, text_eq, map, decimal,
}

pub data Simple : Type 0 where
  master_done : Bool → Option ℕ → Simple
  assistant_error : Text → Simple
  error : Text → Text → Simple
  task_delegated : Text → Option ℕ → List Text → List Text → Option ℕ → Simple
  worker_summary : Text → Text → Option Text → Simple
  handler_result : Bool → Text → Text → Simple
  context_compacted : Option Text → Text → ℕ → Simple
  context_compact_failed : Text → Text → Simple
  resume_context_dropped : Text → Simple
  login_required : Simple
  clone_start : Option Text → Text → Simple
  scheduled_trigger : Text → Simple
  agent_message : Text → Text → Text → Simple
  slack_reply : Text → Simple
  backend_switched : Text → Text → Simple
  overlay_inactive : Text → Text → Text → Text → Simple
  model_fallback : Text → List Text → Simple
  scheduled_run_skipped : Text → Text → Text → Simple

-- The message of a handler, by its role and its `kind`.
pub data Note : Type 0 where
  separator : Option ℕ → Note
  system_note : Text → Note
  kind_note : String → Text → Note
  delegated_note : Text → Option ℕ → Text → Text → Note
  summary_note : Text → Text → Option Text → Note
  clone_note : Text → Text → Note
  trigger_note : Text → Note
  agent_note : Text → Text → Text → Note

-- `a or b or ...`
abbrev pub first_text : List Text → Text
first_text [] = []
first_text ([] ∷ ts) = first_text ts
first_text ((c ∷ t) ∷ ts) = c ∷ t

abbrev pub join_with : Text → List Text → Text
join_with sep [] = []
join_with sep (t ∷ []) = t
join_with sep (t ∷ ts) = t ++ sep ++ join_with sep ts

abbrev pub non_empty : List Text → List Text
non_empty [] = []
non_empty ([] ∷ ts) = non_empty ts
non_empty ((c ∷ t) ∷ ts) = (c ∷ t) ∷ non_empty ts

abbrev lower : ℕ → ℕ
lower c = if leb b'A' c && leb c b'Z' then c + 32 else c

abbrev upper : ℕ → ℕ
upper c = if leb b'a' c && leb c b'z' then c - 32 else c

abbrev capitalize : Text → Text
capitalize [] = []
capitalize (c ∷ s) = upper c ∷ map lower s

-- `text.split("-")` with the part read so far
abbrev pub dash_parts : Text → Text → List Text
dash_parts w [] = w ∷ []
dash_parts w (c ∷ s) = if nat_eq c b'-' then w ∷ dash_parts [] s else dash_parts (w ++ c ∷ []) s

abbrev pub family : List Text → Text
family [] = []
family (p ∷ []) = p
family (p ∷ q ∷ ps) = if text_eq p (codes "claude") then q else p

abbrev pub compacting_model_note : Text → Text
compacting_model_note model =
    if is_empty model
    then []
    else codes "by " ++ capitalize (family (dash_parts [] (map lower model)))

-- `round(n / 1000)`: a half goes to the even neighbour.
abbrev pub round_thousands : ℕ → ℕ
round_thousands n =
    let q = n / 1000 in
    let r = n % 1000 in if ltb r 500 then q else if ltb 500 r then q + 1 else q + q % 2

abbrev pub bracketed : List Text → Text
bracketed [] = []
bracketed (q ∷ qs) = codes " (" ++ join_with (codes ", ") (q ∷ qs) ++ codes ")"

abbrev trigger_text : Option Text → Text
trigger_text none = codes "auto"
trigger_text (some t) = t

abbrev pub context_compacted_msg : Option Text → Text → ℕ → Note
context_compacted_msg trigger model pre_tokens = kind_note "context_compacted" (
    codes "Context compacted"
    ++ bracketed (non_empty (trigger_text trigger ∷ compacting_model_note model ∷ []))
    ++ (if nat_eq pre_tokens 0
        then []
        else codes " — was " ++ decimal (round_thousands pre_tokens) ++ codes "k tokens"))

abbrev failed_head : Text → Text
failed_head [] = codes "Compaction failed"
failed_head (c ∷ note) = codes "Compaction " ++ (c ∷ note) ++ codes " failed"

abbrev pub context_compact_failed_msg : Text → Text → Note
context_compact_failed_msg model err =
    let head = failed_head (compacting_model_note model) in
    kind_note "context_compact_failed" (if is_empty err then head else head ++ codes " — " ++ err)

abbrev dropped_reason : Text → Text
dropped_reason reason =
    if text_eq reason (codes "anchor_missing")
    then codes "Context not resumed: no previous session anchor was found"
    else if text_eq reason (codes "transcript_missing")
    then codes "Context not resumed: the previous session transcript is missing"
    else codes "Context not resumed"

abbrev pub overlay_inactive_msg : Text → Text → Text → Text → Note
overlay_inactive_msg reason backend overlay err = system_note (
    if text_eq reason (codes "unreadable")
    then codes "Backend "
      ++ backend
      ++ codes ": prompt_overlay '"
      ++ overlay
      ++ codes "' could not be loaded ("
      ++ err
      ++ codes ") — running without a fence"
    else codes "Backend "
      ++ backend
      ++ codes " declares no prompt_overlay — running without a fence")

abbrev icon : Bool → Text
icon true = codes "✓"
icon false = codes "✗"

abbrev session_name : Option Text → Text
session_name none = codes "Unknown session"
session_name (some name) = name

-- `_SIMPLE_HANDLERS`, but for `system` events
unfoldable pub simple_handler : Simple → Option Note
simple_handler (master_done still_thinking seconds) =
    if still_thinking then none else some (separator seconds)
simple_handler (assistant_error content) = some (system_note (codes "Error: " ++ content))
simple_handler (error content message) =
    some
      (system_note (codes "Error: " ++ first_text (content ∷ message ∷ codes "Unknown error" ∷ [])))
simple_handler (task_delegated thread invocation backends models created_at) =
    some (delegated_note thread invocation (first_text backends) (first_text models))
simple_handler (worker_summary content thread origin) = some (summary_note content thread origin)
simple_handler (handler_result is_ok task message) =
    some (system_note (icon is_ok ++ codes " " ++ task ++ codes ": " ++ message))
simple_handler (context_compacted trigger model pre_tokens) =
    some (context_compacted_msg trigger model pre_tokens)
simple_handler (context_compact_failed model err) = some (context_compact_failed_msg model err)
simple_handler (resume_context_dropped reason) =
    some (system_note (dropped_reason reason ++ codes " — started a new conversation"))
simple_handler login_required = some (
    kind_note "claude_account_login_required"
      (codes "One account in the Claude pool needs a new login; see the usage panel."))
simple_handler (clone_start name parent) = some (clone_note (session_name name) parent)
simple_handler (scheduled_trigger content) = some (trigger_note content)
simple_handler (agent_message content from from_name) = some (agent_note content from from_name)
simple_handler (slack_reply content) = some (system_note (codes "Posted to Slack: " ++ content))
simple_handler (backend_switched from to) =
    some (system_note (codes "Backend switched: " ++ from ++ codes " → " ++ to))
simple_handler (overlay_inactive reason backend overlay err) =
    some (overlay_inactive_msg reason backend overlay err)
simple_handler (model_fallback configured served) = some (
    system_note (
      codes "Served by "
      ++ join_with (codes ", ") served
      ++ codes " (configured "
      ++ configured
      ++ codes ")"))
simple_handler (scheduled_run_skipped task skipped_at reason) = some (
    system_note (
      codes "Scheduled run of '"
      ++ task
      ++ codes "' skipped at "
      ++ skipped_at
      ++ codes ": "
      ++ reason))
