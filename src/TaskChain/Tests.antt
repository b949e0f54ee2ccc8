-- ===== src/TaskChain/Tests.antt =====
-- Runs of src/core/task_chain.py on a task of two steps.
use claude_code_manager.Base.{
  ℕ, ◌≡◌, refl, true, none, some, List, [], ◌∷◌, Text, codes, nat_eq, Outcome, ok, raise, ◌>>=◌,
  length, Bool, false, pos, map,
}
use claude_code_manager.TaskChain.{
  World, master_woke, absorb_all, absorb, ChainError, worker_summary, assistant, other_event,
  Thread, TaskConfig, StepConfig, Reading, handle_step_completion, complete, advance, taken,
  wake_master_with_chain, trigger_master_judged, chain_summary_blocks, spawn_step, fire,
}
use claude_code_manager.Memo.{lookup, assign}
use claude_code_manager.TaskChain.Rerun.{IsRerun, with_chat, handle_step_completion_again}
use claude_code_manager.TaskChain.Histories.{
  Happening, first_step, other_thread, completion, happen_all, happen, no_threads, IsSingle,
  happen_all-IsSingle,
}

abbrev step : Text → StepConfig
step name = record { name = name; prompt = codes "go "; backend = none }

abbrev task : TaskConfig
task = record { name = codes "task"; steps = step (codes "one") ∷ step (codes "two") ∷ [] }

abbrev reading : Reading
reading = record {
  is_space = λ c. nat_eq c b' ';
  result_of = λ id. codes "done";
  task_name = codes "task";
}

-- The first step succeeds, twice reported; the thread of the second is then the first of the list.
abbrev history : List Happening
history =
    other_thread (codes "chat")
    ∷ first_step task
    ∷ completion (some task) 0 (pos 0)
    ∷ completion (some task) 1 (pos 0)
    ∷ completion (some task) 0 (pos 1)
    ∷ []

indices :
    map (λ t. t.step_index) (happen_all reading history no_threads).threads
    ≡ some 1 ∷ some 0 ∷ none ∷ []
unfolding happen_all happen handle_step_completion complete advance taken spawn_step fire
    wake_master_with_chain trigger_master_judged master_woke absorb_all absorb lookup assign
indices = refl

wakes :
    map {B = ℕ × Text} (λ k. (k.thread, k.summary)) (happen_all reading history no_threads).wakes
    ≡ (2, codes "**one result:**\ndone\n\n**two result:**\ndone") ∷ []
unfolding happen_all happen handle_step_completion complete advance taken spawn_step fire
    wake_master_with_chain trigger_master_judged chain_summary_blocks master_woke absorb_all absorb
    lookup assign
wakes = refl

happen_all-IsSingle_example : IsSingle (happen_all reading history no_threads)
happen_all-IsSingle_example = happen_all-IsSingle reading history

abbrev thread : Thread
thread = record { id = 0; description = codes "x"; chain_root = some 0; step_index = some 0 }

abbrev before : World
before = record { threads = thread ∷ []; next_id = 1; spawns = []; wakes = []; chat = [] }

abbrev after : World
after = fire (λ c. nat_eq c b' ') task 1 (some 0) (codes "done") (step (codes "two")) before

advanced : handle_step_completion reading (some task) thread (pos 0) before ≡ ok (after, true)
unfolding handle_step_completion complete advance taken spawn_step
advanced = refl

-- The last step, whose summary is in the chat.
abbrev last_step : Thread
last_step = record { id = 1; description = codes "y"; chain_root = some 0; step_index = some 1 }

abbrev summarized : World
summarized = with_chat (worker_summary 1 false ∷ []) after

abbrev wake_count : Outcome ChainError (World × Bool) → ℕ
wake_count (ok (w, b)) = length w.wakes
wake_count (raise e) = 0

abbrev handled_last : World → Outcome ChainError (World × Bool)
handled_last w = handle_step_completion reading (some task) last_step (pos 0) w

-- Before the master has answered, a rerun wakes it once more; afterwards it does not.
woken_again : wake_count (handled_last summarized >>= λ p. handled_last p.0) ≡ 2
unfolding handle_step_completion complete wake_master_with_chain trigger_master_judged fire
    master_woke absorb_all absorb lookup assign
woken_again = refl

answered :
    wake_count (
      handled_last summarized >>= λ p.
      handled_last (with_chat (worker_summary 1 false ∷ other_event ∷ assistant ∷ []) p.0))
    ≡ 1
unfolding handle_step_completion complete wake_master_with_chain trigger_master_judged fire
    master_woke absorb_all absorb lookup assign
answered = refl

handle_step_completion_again_example :
    (again : World) × (handle_step_completion reading
        (some task)
        thread
        (pos 0)
        (with_chat (assistant ∷ []) after)
      ≡ ok (again, true))
    × IsRerun 0 (with_chat (assistant ∷ []) after) again
handle_step_completion_again_example =
    handle_step_completion_again reading thread 0 refl (some task) (pos 0) before after true
      (assistant ∷ []) advanced
