-- ===== src/TaskChain.antt =====
-- src/core/task_chain.py: the chain of workers of a scheduled task that declares steps.
--
-- The world is one session's: its threads (the newest first; every reader here sorts or asks for
-- any), what was spawned, and the wakes of the master. `result_of` stands for the extracted result
-- of a thread, none read as the empty text. `chat` are the chat events of the
-- session, the oldest first: what the master puts out arrives there some time after its wake.
pub mod Judged
pub mod Rerun
pub mod Histories
mod Tests
use claude_code_manager.Base.{
  ℕ, zero, suc, ◌+◌, ◌-◌, ◌≡◌, Bool, true, false, not, ◌&&◌, Option, none, some, List, [], ◌∷◌,
  ◌++◌, reverse, if◌then◌else◌, length, Text, codes, nat_eq, leb, ltb, get_elem?, any, filter,
  is_empty, lstrip, Outcome, ok, raise, ◌>>=◌, starts_with, drop, ℤ, pos, negsuc, ℕ_eq,
}
use claude_code_manager.Memo.{lookup, assign}

pub record StepConfig : Type 0 where
  pub name : Text
  pub prompt : Text
  pub backend : Option Text

pub record TaskConfig : Type 0 where
  pub name : Text
  pub steps : List StepConfig

pub record Thread : Type 0 where
  pub id : ℕ
  pub description : Text
  pub chain_root : Option ℕ
  pub step_index : Option ℕ

-- A worker that was fired: its thread, its prompt and its backend.
pub record Spawn : Type 0 where
  pub thread : ℕ
  pub prompt : Text
  pub backend : Option Text

pub record Wake : Type 0 where
  pub thread : ℕ
  pub summary : Text

-- A worker's summary, with its thread and whether its status is running, the three kinds of output
-- of the master, and anything else.
pub data SessionEvent : Type 0 where
  worker_summary : ℕ → Bool → SessionEvent
  assistant master_done assistant_error other_event : SessionEvent

-- `next_id` is the id of the next thread, `wakes` are the triggers of the master.
pub record World : Type 0 where
  pub threads : List Thread
  pub next_id : ℕ
  pub spawns : List Spawn
  pub wakes : List Wake
  pub chat : List SessionEvent

pub data ChainError : Type 0 where
  index_error : ChainError

abbrev pub same : Option ℕ → Option ℕ → Bool
same none none = true
same (some a) (some b) = nat_eq a b
same _ _ = false

-- Whether a chain has a thread at a step.
unfoldable pub taken : Option ℕ → Option ℕ → List Thread → Bool
taken root index ts = any (λ t. same t.chain_root root && same t.step_index index) ts

abbrev pub dot : Text
dot = b' ' ∷ 183 ∷ b' ' ∷ []

abbrev pub rstrip : (ℕ → Bool) → Text → Text
rstrip is_space s = reverse (lstrip is_space (reverse s))

unfoldable pub step_prompt : (ℕ → Bool) → List StepConfig → ℕ → StepConfig → Text → Text
step_prompt is_space steps zero step previous = step.prompt
step_prompt is_space steps (suc n) step previous = elim (get_elem? steps n) [
  | none ↦ step.prompt
  | some before ↦
      rstrip is_space step.prompt
      ++ (codes "\n\n## Result of the previous step ("
          ++ (before.name ++ (codes ")\n" ++ previous)))
]

abbrev pub or_own : Option ℕ → ℕ → ℕ
or_own none own = own
or_own (some root) own = root

unfoldable pub fire : (ℕ → Bool) → TaskConfig → ℕ → Option ℕ → Text → StepConfig → World → World
fire is_space task index root previous step w = record {
  threads =
      record {
        id = w.next_id;
        description = task.name ++ (dot ++ step.name);
        chain_root = some (or_own root w.next_id);
        step_index = some index;
      }
      ∷ w.threads;
  next_id = suc w.next_id;
  spawns =
      w.spawns
      ++ record {
        thread = w.next_id;
        prompt = step_prompt is_space task.steps index step previous;
        backend = step.backend;
      }
        ∷ [];
  wakes = w.wakes;
  chat = w.chat;
}

unfoldable pub spawn_step :
    (ℕ → Bool) → TaskConfig → ℕ → Option ℕ → Text → World → Outcome ChainError World
spawn_step is_space task index root previous w = elim (get_elem? task.steps index) [
  | none ↦ raise index_error
  | some step ↦ ok (fire is_space task index root previous step w)
]

-- `rsplit(" · ", 1)[-1]`, with what stands behind the last separator so far
abbrev pub behind_last : Text → Text → Text
behind_last found [] = found
behind_last found (c ∷ s) =
    if starts_with dot (c ∷ s) then behind_last (drop 2 s) s else behind_last found s

abbrev pub configured_name : Option TaskConfig → Option ℕ → Option Text
configured_name none index = none
configured_name (some task) none = none
configured_name (some task) (some n) = elim (get_elem? task.steps n) [
  | none ↦ none
  | some step ↦ some step.name
]

-- `_chain_step_name`
abbrev pub chain_step_name : Option TaskConfig → Thread → Text
chain_step_name task t = elim (configured_name task t.step_index) [
  | none ↦ behind_last t.description t.description
  | some name ↦ name
]

abbrev pub index_of : Thread → ℕ
index_of t = elim t.step_index [ none ↦ 0 | some n ↦ n ]

-- `sorted`, by the step's index
abbrev pub insert : Thread → List Thread → List Thread
insert t [] = t ∷ []
insert t (u ∷ us) = if leb (index_of t) (index_of u) then t ∷ u ∷ us else u ∷ insert t us

abbrev pub sorted : List Thread → List Thread
sorted [] = []
sorted (t ∷ ts) = insert t (sorted ts)

abbrev pub in_chain : Option ℕ → Thread → Bool
in_chain root t = same t.chain_root root && not (same t.step_index none)

abbrev pub summary_block : Option TaskConfig → (ℕ → Text) → Thread → Text
summary_block task result_of t =
    codes "**"
    ++ (chain_step_name task t
        ++ (codes " result:**\n"
            ++ (if is_empty (result_of t.id) then codes "(no result)" else result_of t.id)))

abbrev pub join_blocks : List Text → Text
join_blocks [] = []
join_blocks (b ∷ []) = b
join_blocks (b ∷ bs) = b ++ (codes "\n\n" ++ join_blocks bs)

abbrev pub summary_blocks : Option TaskConfig → (ℕ → Text) → List Thread → List Text
summary_blocks task result_of [] = []
summary_blocks task result_of (t ∷ ts) =
    summary_block task result_of t ∷ summary_blocks task result_of ts

-- `_chain_summary_blocks`
unfoldable pub chain_summary_blocks :
    Option TaskConfig → (ℕ → Text) → Option ℕ → List Thread → List Text
chain_summary_blocks task result_of root ts =
    summary_blocks task result_of (sorted (filter (in_chain root) ts))

abbrev pub with_note : Text → Text → Text
with_note summary [] = summary
with_note [] (c ∷ note) = c ∷ note
with_note (d ∷ summary) (c ∷ note) = d ∷ summary ++ (codes "\n\n" ++ c ∷ note)

abbrev pub is_terminal_worker_summary : ℕ → SessionEvent → Bool
is_terminal_worker_summary thread (worker_summary t is_running) = nat_eq t thread && not is_running
is_terminal_worker_summary thread _ = false

abbrev pub is_master_output : SessionEvent → Bool
is_master_output assistant = true
is_master_output master_done = true
is_master_output assistant_error = true
is_master_output _ = false

-- The events behind the last terminal summary of the thread, where it has one.
abbrev pub behind_summary :
    ℕ → Option (List SessionEvent) → List SessionEvent → Option (List SessionEvent)
behind_summary thread found [] = found
behind_summary thread found (ev ∷ evs) =
    behind_summary thread (if is_terminal_worker_summary thread ev then some evs else found) evs

abbrev pub has_output : Option (List SessionEvent) → Bool
has_output none = false
has_output (some evs) = any is_master_output evs

unfoldable pub master_woke_after_summary : List SessionEvent → ℕ → Bool
master_woke_after_summary chat thread = has_output (behind_summary thread none chat)

-- The judgment as the server keeps it (src/core/chat_events.py): for each thread, how many
-- outputs there were at its last terminal summary, and how many there are.
pub record FinalizeFold : Type 0 where
  pub summary_marks : List (ℕ × ℕ)
  pub master_outputs : ℕ

unfoldable pub absorb : SessionEvent → FinalizeFold → FinalizeFold
absorb (worker_summary thread true) f = f
absorb (worker_summary thread false) f = record f {
  summary_marks = assign thread f.master_outputs f.summary_marks;
}
absorb ev f = if is_master_output ev then record f { master_outputs = suc f.master_outputs } else f

unfoldable pub absorb_all : List SessionEvent → FinalizeFold → FinalizeFold
absorb_all [] f = f
absorb_all (ev ∷ evs) f = absorb_all evs (absorb ev f)

abbrev pub build : List SessionEvent → FinalizeFold
build chat = absorb_all chat (record { summary_marks = []; master_outputs = 0 })

abbrev pub moved_past : ℕ → Option ℕ → Bool
moved_past outputs none = false
moved_past outputs (some mark) = ltb mark outputs

unfoldable pub master_woke : ℕ → FinalizeFold → Bool
master_woke thread f = moved_past f.master_outputs (lookup thread f.summary_marks)

-- `_trigger_master_judged`
unfoldable pub trigger_master_judged : Text → ℕ → World → World
trigger_master_judged summary thread w =
    if master_woke thread (build w.chat)
    then w
    else record w { wakes = record { thread = thread; summary = summary } ∷ w.wakes }

-- `_wake_master_with_chain`
unfoldable pub wake_master_with_chain :
    Option TaskConfig → (ℕ → Text) → Thread → Text → World → World
wake_master_with_chain task result_of t note w =
    trigger_master_judged
      (with_note (join_blocks (chain_summary_blocks task result_of t.chain_root w.threads)) note)
      t.id w

abbrev pub stopped_note : Option TaskConfig → Text → Text
stopped_note none name =
    codes "Chain stopped: scheduled task '" ++ (name ++ codes "' no longer exists.")
stopped_note (some task) name =
    codes "Chain stopped: scheduled task '" ++ (name ++ codes "' no longer declares steps.")

abbrev pub no_result_note : List StepConfig → ℕ → Text
no_result_note steps n = elim (get_elem? steps n) [
  | none ↦ []
  | some step ↦ codes "Chain stopped: step '" ++ (step.name ++ codes "' produced no result.")
]

-- What the code reads besides the world: the results, and the name of the session's task.
pub record Reading : Type 0 where
  pub is_space : ℕ → Bool
  pub result_of : ℕ → Text
  pub task_name : Text

-- A step that succeeded and is not the last.
unfoldable pub advance : Reading → TaskConfig → Thread → ℕ → World → Outcome ChainError World
advance r task t n w =
    if taken t.chain_root (some (suc n)) w.threads
    then ok w
    else if is_empty (r.result_of t.id)
    then ok (wake_master_with_chain (some task) r.result_of t (no_result_note task.steps n) w)
    else spawn_step r.is_space task (suc n) t.chain_root (r.result_of t.id) w

abbrev pub is_zero : ℤ → Bool
is_zero (pos zero) = true
is_zero _ = false

unfoldable pub complete :
    Reading → Option TaskConfig → Thread → ℕ → ℤ → World → Outcome ChainError World
complete r none t n exit w =
    ok (wake_master_with_chain none r.result_of t (stopped_note none r.task_name) w)
complete r (some task) t n exit w =
    if is_empty task.steps
    then ok
        (wake_master_with_chain (some task) r.result_of t (stopped_note (some task) r.task_name) w)
    else if is_zero exit && ltb (suc n) (length task.steps)
    then advance r task t n w
    else ok (wake_master_with_chain (some task) r.result_of t [] w)

abbrev pub handled : Outcome ChainError World → Outcome ChainError (World × Bool)
handled m = m >>= λ w. ok (w, true)

unfoldable pub handle_step_completion :
    Reading → Option TaskConfig → Thread → ℤ → World → Outcome ChainError (World × Bool)
handle_step_completion r task t exit w = elim t.step_index [
  | none ↦ ok (w, false)
  | some n ↦ handled (complete r task t n exit w)
]
