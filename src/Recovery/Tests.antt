-- ===== src/Recovery/Tests.antt =====
-- Runs of src/core/init_master_recovery.py on a small session.
use claude_code_manager.Base.{
  ◌≡◌, refl, false, Option, none, some, List, [], ◌∷◌, Text, codes, nat_eq, String, Outcome, ok,
}
use claude_code_manager.Ndjson.{Json}
use claude_code_manager.Runs.Log.{Translator}
use claude_code_manager.Runs.Process.{RunError, Host, is_run_alive, read_pid_stat}
use claude_code_manager.Runs.Resolve.{resolve_run, rows}
use claude_code_manager.MasterQueue.{idle, enqueue, mark_busy}
use claude_code_manager.MasterQueue.Requests.{
  queued_user_event_ids, replay_user_message, run_message,
}
use claude_code_manager.Recovery.{
  MasterRun, Room, user_event, done_event, Verdict, judge_turn, verdict_of, reconcile_master_runs,
  reconcile_master_identity, apply_verdict, replay_unanswered_user_messages, replay_events,
  unanswered_user_events, behind_done,
}
use claude_code_manager.Recovery.Judgment.{IsJustified, judge_turn-IsJustified}
use claude_code_manager.Recovery.Owned.{IsRecovered, reconcile_master_runs-IsOwned}

abbrev json : Json Text
json = record {
  loads = λ s. none;
  loads_text = λ s. none;
  decode = λ s. s;
  is_space = λ c. nat_eq c b' ';
  is_byte_space = λ c. nat_eq c b' ';
}

abbrev mute : Translator Text
mute = record { State = Unit; fresh = tt; translate = λ state v. ([], state) }

-- A host on which no process is left.
abbrev host : Host
host = record { stat = λ pid. none; boot_time = 5; own_pid = 77; is_space = λ c. nat_eq c b' ' }

-- A turn that died before its log was written.
abbrev turn : MasterRun
turn = record {
  pid = some 42;
  pid_start = some (codes "900");
  started_at = 9;
  raw = none;
  user_event_id = some "e2";
}

abbrev room : Room
room = record {
  is_terminal = false;
  backend = some "cc-claude";
  template = record {
    user_event_id = none;
    resumed_at = none;
    cc_session_id = none;
    claude_account = none;
    persists_account = false;
    auto_trigger = false;
  };
  events =
      user_event (some "a") (some "e1")
      ∷ done_event
      ∷ user_event (some "b") (some "e2")
      ∷ user_event (some "c") (some "e3")
      ∷ [];
  master_run = some turn;
  queue = idle;
  reports = 0;
}

judge_turn-IsJustified_example :
    (verdict : Verdict) × (judge_turn json mute host none 50 20 (some "cc-claude") turn
      ≡ ok verdict)
    × IsJustified json mute host none 50 20 (some "cc-claude") turn verdict
judge_turn-IsJustified_example =
    judge_turn-IsJustified json mute host none 50 20 (some "cc-claude") turn

reconcile_master_runs-IsOwned_example :
    (room' : Room) × (reconcile_master_runs json mute host none 50 20 room ≡ ok room')
    × IsRecovered json mute host none 50 20 room (some turn) room'
unfolding queued_user_event_ids
reconcile_master_runs-IsOwned_example =
    reconcile_master_runs-IsOwned json mute host none 50 20 room refl (refl, (refl, (refl, tt)))
      refl

abbrev queued_after : Outcome RunError Room → List (Option String)
queued_after (Outcome.ok room') = queued_user_event_ids room'.queue
queued_after (Outcome.raise e) = []

-- Both messages behind the last round are queued, the one of the dead turn first.
both :
    queued_after (reconcile_master_runs json mute host none 50 20 room) ≡ some "e2" ∷ some "e3" ∷ []
unfolding queued_user_event_ids reconcile_master_runs reconcile_master_identity judge_turn
    verdict_of resolve_run rows is_run_alive read_pid_stat apply_verdict
    replay_unanswered_user_messages replay_events unanswered_user_events behind_done
    replay_user_message run_message enqueue mark_busy
both = refl
