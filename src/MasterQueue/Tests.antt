-- ===== src/MasterQueue/Tests.antt =====
-- Runs of the queue of src/agents/master_cc_queue.py.
use claude_code_manager.Base.{
  ◌≡◌, refl, ok, codes, nat_eq, split_from, true, false, none, some, List, [], ◌∷◌, ◌++◌, pos,
  arith, length, ◌≤◌,
}
use claude_code_manager.MasterQueue.{
  WorkItem, Report, Input, message, start, raised, steps, idle, mark_busy, step, enqueue,
  step_consumer, begin, take_item, break_off, relay_session,
}
use claude_code_manager.MasterQueue.Requests.{
  Request, cancel_master, group_killed, master_run_cleared, IsCancelled, cancel_master-IsCancelled,
}
use claude_code_manager.Runs.Process.{Host, Recorded, aware, is_run_alive, read_pid_stat}
use claude_code_manager.MasterQueue.Drain.{drain, drain-IsDrained, IsDrained, Round, work}
use claude_code_manager.MasterQueue.Busy.{IsConsistent, steps-IsConsistent}
use claude_code_manager.MasterQueue.Order.{IsOrdered, steps-IsOrdered}

abbrev item : WorkItem
item = record {
  user_event_id = some "e1";
  resumed_at = none;
  cc_session_id = none;
  claude_account = none;
  persists_account = true;
  auto_trigger = false;
}

abbrev report : Report
report = record {
  cc_session_id = some "c1";
  exit_code = pos 0;
  error = false;
  zero_output = false;
  claude_account = some "a1";
  anchor_read_back = some "c1";
  account_read_back = none;
}

abbrev inputs : List Input
inputs =
    message item 5 ∷ start ∷ message item 7 ∷ raised report 8 1 true false ∷ message item 9 ∷ []

abbrev rounds : List Round
rounds = (report, 10, true) ∷ (report, 20, false) ∷ (report, 30, false) ∷ []

steps-IsConsistent_example : IsConsistent (steps inputs idle)
steps-IsConsistent_example = steps-IsConsistent inputs

steps-IsOrdered_example : IsOrdered (steps inputs idle)
steps-IsOrdered_example = steps-IsOrdered inputs

-- Two messages wait, and the consumer holds the item of the round that failed.
three_suffice : work (steps inputs idle) ≤ length rounds
unfolding steps step enqueue mark_busy step_consumer begin take_item break_off relay_session
three_suffice = omega arith

drain-IsDrained_example : IsDrained (steps (inputs ++ drain rounds) idle)
drain-IsDrained_example = drain-IsDrained inputs rounds three_suffice

abbrev request : Request
request = record {
  is_terminal = false;
  skip_user_event = false;
  persisted_id = some "e2";
  item = item;
}

-- A host on which process 42 runs, since 9.
abbrev host : Host
host = record {
  stat = λ pid. some (codes "42 (x) S 1 1 1 1 1 1 1 1 1 1 1 1 1 1 1 1 1 1 900 1");
  boot_time = 5;
  own_pid = 77;
  is_space = λ c. nat_eq c b' ';
}

abbrev detached : Recorded
detached = record { pid = some 42; pid_start = some (codes "900"); started_at = some (aware 9) }

killed :
    cancel_master host false (some detached) true
    ≡ ok (group_killed 42 ∷ master_run_cleared ∷ [], true)
unfolding cancel_master is_run_alive read_pid_stat split_from
killed = refl

cancel_master-IsCancelled_example :
    IsCancelled host false (some detached) true (group_killed 42 ∷ master_run_cleared ∷ [], true)
cancel_master-IsCancelled_example =
    cancel_master-IsCancelled host false (some detached) true _ killed
