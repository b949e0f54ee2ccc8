-- ===== src/MasterQueue.antt =====
-- src/agents/master_cc_queue.py with src/core/thinking_state.py and src/agents/master_cc_state.py:
-- the queue of a session's master runs, the consumer that drains it, and the busy interval.
--
-- Sessions do not share any of this, so the state is one session's. The event loop runs one task
-- at a time, and an input that the code could not take in a state leaves it as it is. `returned`
-- stands for the moment at which a round looks whether it leaves the queue empty, with the writes
-- and broadcasts that follow; a message that is queued during those comes between it and `ended`.
-- What a run returns and what the disk reads back are part of the input. `effects` lists what the
-- code persists, broadcasts and resolves, in order; `accepted` and `started` record the items that
-- were queued and taken, for the theorems. A cancelled consumer task is not modelled: no code
-- cancels one.
pub mod Busy
pub mod Order
pub mod Drain
pub mod Requests
mod Tests
use claude_code_manager.Base.{
  ℕ, ◌+◌, ◌-◌, ◌/◌, ◌≡◌, Bool, true, false, not, ◌&&◌, ◌||◌, Option, none, some, List, [], ◌∷◌,
  ◌++◌, String, String_eq, ◌==◌, ℤ, pos, if◌then◌else◌, is_empty, take,
}

-- The fields of `_WorkItem` and of its session's metadata that the queue reads.
pub record WorkItem : Type 0 where
  pub user_event_id : Option String
  pub resumed_at : Option ℕ
  pub cc_session_id : Option String
  pub claude_account : Option String
  pub persists_account : Bool
  pub auto_trigger : Bool

-- What a run returns, the account that it leaves in the metadata, and what is read back from disk
-- after each of the two writes.
pub record Report : Type 0 where
  pub cc_session_id : Option String
  pub exit_code : ℤ
  pub error : Bool
  pub zero_output : Bool
  pub claude_account : Option String
  pub anchor_read_back : Option String
  pub account_read_back : Option String

pub record Done : Type 0 where
  pub exit_code : ℤ
  pub still_thinking : Bool
  pub input_event_id : Option String
  pub thinking_seconds : Option ℕ

pub data Effect : Type 0 where
  running_changed : Bool → Effect
  zero_output_error : Effect
  anchor_persisted account_persisted persist_mismatch : String → Effect
  master_done : Done → Effect
  master_run_cleared : Effect
  future_resolved : Option String → Effect
  future_rejected : Effect

pub data Consumer : Type 0 where
  absent created : Consumer
  running settled : WorkItem → Consumer

pub record Session : Type 0 where
  pub queue : Option (List WorkItem)
  pub consumer : Consumer
  pub busy : Option ℕ
  pub last_cc_session_id : Option String
  pub last_claude_account : Option String
  pub effects : List Effect
  pub accepted : List WorkItem
  pub started : List WorkItem

abbrev pub idle : Session
idle = record {
  queue = none;
  consumer = absent;
  busy = none;
  last_cc_session_id = none;
  last_claude_account = none;
  effects = [];
  accepted = [];
  started = [];
}

-- Python's truth of an optional text.
abbrev pub truthy : Option String → Bool
truthy none = false
truthy (some s) = not (s == "")

abbrev pub items : Option (List WorkItem) → List WorkItem
items none = []
items (some l) = l

-- `mark_busy`: the interval start, and whether this call opened it
unfoldable pub mark_busy : Option ℕ → Option ℕ → ℕ → ℕ × Bool
mark_busy (some t) since now = (t, false)
mark_busy none (some t) now = (t, true)
mark_busy none none now = (now, true)

abbrev pub ensure_consumer : Consumer → Consumer
ensure_consumer absent = created
ensure_consumer c = c

-- `_enqueue_work_item`, and the notice of a new busy interval
unfoldable pub enqueue : WorkItem → ℕ → Session → Session
enqueue item now s =
    let (start, opened) = mark_busy s.busy item.resumed_at now in
    record s {
      queue = some (items s.queue ++ item ∷ []);
      consumer = ensure_consumer s.consumer;
      busy = some start;
      effects = if opened then s.effects ++ running_changed true ∷ [] else s.effects;
      accepted = s.accepted ++ item ∷ [];
    }

-- The session of the run before, where the item's metadata has none.
abbrev pub carried : Option String → Option String → Option String
carried last own = if truthy last && not (truthy own) then last else own

unfoldable pub take_item : WorkItem → List WorkItem → Session → Session
take_item item rest s = record s {
  queue = some rest;
  consumer = running (record item {
    cc_session_id = carried s.last_cc_session_id item.cc_session_id;
    claude_account = carried s.last_claude_account item.claude_account;
  });
  started = s.started ++ item ∷ [];
}

-- The teardown: no await between the test of the queue and its end.
unfoldable pub teardown : WorkItem → Bool → Session → Session
teardown item workers_running s = record s {
  queue = none;
  consumer = absent;
  busy = none;
  last_cc_session_id = none;
  last_claude_account = none;
  effects = s.effects ++ running_changed workers_running ∷ [];
}

-- `await queue.get()`, at a queue that holds an item
unfoldable pub begin : List WorkItem → Session → Session
begin [] s = s
begin (item ∷ rest) s = take_item item rest s

unfoldable pub finish : WorkItem → Bool → List WorkItem → Session → Session
finish done workers_running [] s = teardown done workers_running s
finish done workers_running (item ∷ rest) s = take_item item rest s

-- `_persist_with_readback`
unfoldable pub persisted : (String → Effect) → String → String → Option String → List Effect
persisted write source value read_back = write value ∷ (elim read_back [
  | none ↦ persist_mismatch source ∷ []
  | some r ↦ if r == value then [] else persist_mismatch source ∷ []
])

abbrev pub or_else : Option String → String → String
or_else none d = d
or_else (some s) d = s

-- The exit code that MASTER_DONE reports.
abbrev pub final_exit_code : Report → ℤ
final_exit_code r = if r.zero_output then pos 1 else r.exit_code

abbrev pub thinking_seconds : Bool → Option ℕ → ℕ → Option ℕ
thinking_seconds true busy now = none
thinking_seconds false none now = none
thinking_seconds false (some start) now = some ((now - start) / 1000000)

unfoldable pub done_event : WorkItem → Report → Bool → Option ℕ → ℕ → Done
done_event item r still busy now = record {
  exit_code = final_exit_code r;
  still_thinking = still;
  input_event_id = if truthy item.user_event_id then item.user_event_id else none;
  thinking_seconds = thinking_seconds still busy now;
}

-- What a round persists after its run, before it resolves the caller's future.
unfoldable pub round_notices : WorkItem → Report → Bool → Option ℕ → ℕ → List Effect
round_notices item r still busy now =
    (if r.zero_output && not r.error then zero_output_error ∷ [] else [])
    ++ ((if truthy r.cc_session_id
          then persisted anchor_persisted "resume_anchor" (or_else r.cc_session_id "")
              r.anchor_read_back
          else [])
        ++ ((if truthy r.claude_account && item.persists_account
              then persisted account_persisted "claude_account" (or_else r.claude_account "")
                  r.account_read_back
              else [])
            ++ (master_done (done_event item r still busy now) ∷ master_run_cleared ∷ [])))

unfoldable pub relay_session : Report → Session → Session
relay_session r s = record s {
  last_cc_session_id = if truthy r.cc_session_id then r.cc_session_id else s.last_cc_session_id;
}

unfoldable pub relay_account : WorkItem → Report → Session → Session
relay_account item r s = record s {
  last_claude_account =
      if truthy r.claude_account && item.persists_account
      then r.claude_account
      else s.last_claude_account;
}

unfoldable pub settle : WorkItem → Report → ℕ → Session → Session
settle item r now s = record (relay_account item r (relay_session r s)) {
  consumer = settled item;
  effects =
      s.effects
      ++ (round_notices item r (not (is_empty (items s.queue))) s.busy now
          ++ future_resolved r.cc_session_id ∷ []);
}

-- A round that raises after its first `n` notices, and how far it got with the relay.
abbrev pub relay_some : Bool → Bool → WorkItem → Report → Session → Session
relay_some session account item r s =
    let s' : Session = if session then relay_session r s else s in
    if account then relay_account item r s' else s'

unfoldable pub break_off : WorkItem → Report → ℕ → ℕ → Bool → Bool → Session → Session
break_off item r now n session account s = record (relay_some session account item r s) {
  consumer = settled item;
  effects =
      s.effects
      ++ (take n (round_notices item r (not (is_empty (items s.queue))) s.busy now)
          ++ future_rejected ∷ []);
}

-- What may happen next: a message is queued, the new consumer starts, a run returns, a round
-- raises, or a round ends.
pub data Input : Type 0 where
  message : WorkItem → ℕ → Input
  start : Input
  returned : Report → ℕ → Input
  raised : Report → ℕ → ℕ → Bool → Bool → Input
  ended : Bool → Input

unfoldable pub step_consumer : Input → Consumer → Session → Session
step_consumer start created s = begin (items s.queue) s
step_consumer (returned r now) (running item) s = settle item r now s
step_consumer (raised r now n session account) (running item) s =
    break_off item r now n session account s
step_consumer (ended workers_running) (settled item) s =
    finish item workers_running (items s.queue) s
step_consumer _ _ s = s

unfoldable pub step : Input → Session → Session
step (message item now) s = enqueue item now s
step input s = step_consumer input s.consumer s

unfoldable pub steps : List Input → Session → Session
steps [] s = s
steps (i ∷ is) s = steps is (step i s)
