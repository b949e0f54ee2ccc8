-- ===== src/Recovery.antt =====
-- src/core/init_master_recovery.py: what becomes of a session's recorded master turn and of its
-- unanswered messages when the server starts again.
--
-- Sessions do not share any of this, so the state is one session's. The facts on the disk are
-- arguments, as in Runs. The passes run one after the other, as the source demands, and the replays
-- are dispatched in order; the consumer of the queue is the one of MasterQueue and does not run
-- between them here. The id of an event is a text, missing or not.
pub mod Judgment
pub mod Replay
pub mod Covers
pub mod Rounds
pub mod Owned
mod Tests
use claude_code_manager.Base.{
  ℕ, zero, suc, Bool, true, false, not, ◌&&◌, ◌||◌, Option, none, some, List, [], ◌∷◌, ◌++◌,
  if◌then◌else◌, leb, any, filter, drop, String, String_eq, ◌==◌, Text, Outcome, ok, raise, ◌>>=◌,
}
use claude_code_manager.Ndjson.{Json}
use claude_code_manager.Runs.Log.{Translator}
use claude_code_manager.Runs.Process.{Recorded, Host, Scan, RunError, aware, is_run_alive}
use claude_code_manager.Runs.Resolve.{
  RunOutcome, completed, died, stalled, never_started, running, Reason, uncovered_alive,
  raw_missing_alive, died_without_result, RunResolution, RawLog, resolve_run,
}
use claude_code_manager.MasterQueue.{WorkItem, Session, truthy, enqueue}
use claude_code_manager.MasterQueue.Requests.{Request, queued_user_event_ids, replay_user_message}

-- `MasterRunRecord`, with what its raw log holds.
pub record MasterRun : Type 0 where
  pub pid : Option ℕ
  pub pid_start : Option Text
  pub started_at : ℕ
  pub raw : Option RawLog
  pub user_event_id : Option String

abbrev pub recorded_of : MasterRun → Recorded
recorded_of run = record {
  pid = run.pid;
  pid_start = run.pid_start;
  started_at = some (aware run.started_at);
}

-- A user event has its content where it is a text.
pub data ChatEvent : Type 0 where
  done_event other_event : ChatEvent
  user_event : Option String → Option String → ChatEvent

pub record Room : Type 0 where
  pub is_terminal : Bool
  pub backend : Option String
  pub template : WorkItem
  pub events : List ChatEvent
  pub master_run : Option MasterRun
  pub queue : Session
  pub reports : ℕ

pub data Verdict : Type 0 where
  spared unfollowable followed cleared : Verdict

abbrev pub is_unfollowable : RunOutcome → Reason → Bool
is_unfollowable running uncovered_alive = true
is_unfollowable running raw_missing_alive = true
is_unfollowable _ _ = false

abbrev pub is_without_result : Reason → Bool
is_without_result died_without_result = true
is_without_result _ = false

-- `follow`, at whether the turn has a user message
abbrev pub follows : RunOutcome → Reason → Bool → Bool
follows completed why has_message = true
follows running why has_message = true
follows stalled why has_message = true
follows died why has_message = is_without_result why && not has_message
follows never_started why has_message = false

unfoldable pub verdict_of : RunResolution → Bool → Verdict
verdict_of res has_message =
    if is_unfollowable res.outcome res.reason
    then unfollowable
    else if follows res.outcome res.reason has_message
    then followed
    else cleared

-- Ids in sets.
abbrev pub same_id : Option String → Option String → Bool
same_id none none = true
same_id none (some b) = false
same_id (some a) none = false
same_id (some a) (some b) = a == b

abbrev pub has_event_id : List (Option String) → Option String → Bool
has_event_id ids id = any (same_id id) ids

abbrev pub is_done : ChatEvent → Bool
is_done done_event = true
is_done _ = false

-- `last_done + 1`
unfoldable pub behind_done : ℕ → ℕ → List ChatEvent → ℕ
behind_done idx found [] = found
behind_done idx found (ev ∷ evs) = behind_done (suc idx) (if is_done ev then suc idx else found) evs

abbrev pub is_unanswered : List (Option String) → ChatEvent → Bool
is_unanswered skip (user_event (some content) id) = not (has_event_id skip id)
is_unanswered skip _ = false

unfoldable pub unanswered_user_events : List ChatEvent → List (Option String) → List ChatEvent
unanswered_user_events events skip =
    filter (is_unanswered skip) (drop (behind_done 0 0 events) events)

-- The id that a turn keeps out of the replay.
abbrev pub owner : MasterRun → List (Option String)
owner run = if truthy run.user_event_id then run.user_event_id ∷ [] else []

-- `enqueue_master_resume`
abbrev pub resume_item : MasterRun → WorkItem → WorkItem
resume_item run template = record template {
  user_event_id = run.user_event_id;
  resumed_at = some run.started_at;
}

unfoldable pub apply_verdict : Verdict → MasterRun → ℕ → Room → Room × List (Option String)
apply_verdict spared run now room = (room, owner run)
apply_verdict unfollowable run now room = (record room { reports = suc room.reports }, owner run)
apply_verdict followed run now room =
    (record room { queue = enqueue (resume_item run room.template) now room.queue }, owner run)
apply_verdict cleared run now room = (record room { master_run = none }, [])

abbrev request_of : Room → Option String → Request
request_of room id = record {
  is_terminal = room.is_terminal;
  skip_user_event = true;
  persisted_id = none;
  item = record (room.template) { user_event_id = id };
}

abbrev pub replay_event : Room → ℕ → ChatEvent → Session → Session
replay_event room now (user_event content id) s =
    replay_user_message content (request_of room id) now s
replay_event room now _ s = s

unfoldable pub replay_events : Room → ℕ → List ChatEvent → Session → Session
replay_events room now [] s = s
replay_events room now (ev ∷ evs) s = replay_events room now evs (replay_event room now ev s)

-- `_replay_unanswered_user_messages`, on one session
unfoldable pub replay_unanswered_user_messages : List (Option String) → ℕ → Room → Room
replay_unanswered_user_messages excluded now room =
    let skip = excluded ++ queued_user_event_ids room.queue in
    record room {
      queue = replay_events room now (unanswered_user_events room.events skip) room.queue;
    }

module _ {V : Type 0} (json : Json V) (t : Translator V) (host : Host) (scan : Option Scan)
    (now boot : ℕ) where
  -- What the identity pass finds of a recorded turn.
  unfoldable pub judge_turn : Option String → MasterRun → Outcome RunError Verdict
  judge_turn backend run = if leb boot run.started_at then ok spared else elim backend [
    | none ↦ is_run_alive host (recorded_of run) >>= λ alive.
        ok (if alive then unfollowable else cleared)
    | some kind ↦ resolve_run json t host run.raw (recorded_of run) (some kind) scan now >>= λ res.
        ok (verdict_of res (truthy run.user_event_id))
  ]

  -- `reconcile_master_identity`, on one session
  unfoldable pub reconcile_master_identity : Room → Outcome RunError (Room × List (Option String))
  reconcile_master_identity room = elim room.master_run [
    | none ↦ ok (room, [])
    | some run ↦ judge_turn room.backend run >>= λ verdict. ok (apply_verdict verdict run now room)
  ]

  -- `_reconcile_master_runs`, on one session
  unfoldable pub reconcile_master_runs : Room → Outcome RunError Room
  reconcile_master_runs room = reconcile_master_identity room >>= λ (room', excluded).
      ok (replay_unanswered_user_messages excluded now room')
