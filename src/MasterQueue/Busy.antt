-- ===== src/MasterQueue/Busy.antt =====
-- The busy interval of src/core/thinking_state.py against the queue of
-- src/agents/master_cc_queue.py.
use claude_code_manager.Base.{
  ◌≡◌, refl, Bool, true, false, not, ◌||◌, Option, none, some, List, [], ◌∷◌, ◌++◌, is_empty, arith,
}
use claude_code_manager.MasterQueue.{
  Session, Consumer, absent, running, settled, idle, items, mark_busy, enqueue, take_item, teardown,
  begin, finish, relay_session, relay_account, settle, break_off, Input, message, start, returned,
  raised, ended, step_consumer, step, steps,
}

abbrev pub is_some {ℓ} : {A : Type ℓ} → Option A → Bool
is_some none = false
is_some (some a) = true

abbrev pub holds_item : Consumer → Bool
holds_item (running item) = true
holds_item (settled item) = true
holds_item _ = false

abbrev pub is_present : Consumer → Bool
is_present absent = false
is_present _ = true

-- An item is queued, or the consumer works on one.
abbrev pub has_work : Session → Bool
has_work s = not (is_empty (items s.queue)) || holds_item s.consumer

pub record IsConsistent (s : Session) : Type 0 where
  pub busy_is_work : is_some s.busy ≡ has_work s
  pub consumer_is_work : is_present s.consumer ≡ has_work s
  pub queue_is_work : is_some s.queue ≡ has_work s

snoc_is_empty : {A : Type 0} (xs : List A) (x : A) → is_empty (xs ++ x ∷ []) ≡ false
snoc_is_empty [] x = refl
snoc_is_empty (y ∷ xs) x = refl

pub step-IsConsistent : (i : Input) (s : Session) → IsConsistent s → IsConsistent (step i s)
unfolding step enqueue mark_busy step_consumer begin take_item settle break_off finish teardown
    relay_session relay_account
step-IsConsistent (message item now) s h = ground (arith, snoc_is_empty (items s.queue) item)
step-IsConsistent start s h = ground arith
step-IsConsistent (returned r now) s h = ground arith
step-IsConsistent (raised r now n session account) s h = ground arith
step-IsConsistent (ended workers_running) s h = ground arith

pub steps-IsConsistent_from :
    (is : List Input) (s : Session) → IsConsistent s → IsConsistent (steps is s)
unfolding steps
steps-IsConsistent_from [] s h = h
steps-IsConsistent_from (i ∷ is) s h =
    steps-IsConsistent_from is (step i s) (step-IsConsistent i s h)

-- However messages, runs, failures and ends of rounds interleave: a session is busy exactly while
-- an item is queued or worked on, and exactly then it has a consumer and a queue.
pub steps-IsConsistent : (is : List Input) → IsConsistent (steps is idle)
steps-IsConsistent is =
    steps-IsConsistent_from is idle
      (record { busy_is_work = refl; consumer_is_work = refl; queue_is_work = refl })
