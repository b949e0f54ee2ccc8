-- ===== src/MasterQueue/Order.antt =====
-- Which items of src/agents/master_cc_queue.py run, in which order, and what their callers get.
use claude_code_manager.Base.{
  ℕ, zero, suc, ◌+◌, ◌≤◌, ◌≡◌, refl, sym, ◌∙◌, ap, Bool, true, false, not, ◌&&◌, Option, List, [],
  ◌∷◌, ◌++◌, if◌then◌else◌, is_empty, arith, append_assoc, length, take, String, length-append,
}
use claude_code_manager.MasterQueue.{
  WorkItem, Report, Session, Consumer, created, running, settled, idle, items, mark_busy, enqueue,
  take_item, teardown, begin, finish, relay_session, relay_account, settle, break_off, relay_some,
  Input, message, start, returned, raised, ended, step_consumer, step, steps, Effect,
  future_resolved, future_rejected, round_notices, persisted, running_changed, zero_output_error,
  anchor_persisted, account_persisted, truthy, or_else,
}

abbrev pub is_future : Effect → ℕ
is_future (future_resolved c) = 1
is_future future_rejected = 1
is_future _ = 0

-- How many callers' futures are settled.
abbrev pub futures : List Effect → ℕ
futures [] = 0
futures (e ∷ es) = is_future e + futures es

abbrev pub in_run : Consumer → ℕ
in_run (running item) = 1
in_run _ = 0

pub record IsOrdered (s : Session) : Type 0 where
  pub fifo : s.accepted ≡ s.started ++ items s.queue
  pub settled_once : futures s.effects + in_run s.consumer ≡ length s.started

futures-append : (xs ys : List Effect) → futures (xs ++ ys) ≡ futures xs + futures ys
futures-append [] ys = omega arith
futures-append (x ∷ xs) ys = omega (arith, futures-append xs ys)

futures-take : (n : ℕ) (xs : List Effect) → futures (take n xs) ≤ futures xs
futures-take zero xs = omega arith
futures-take (suc n) [] = omega arith
futures-take (suc n) (x ∷ xs) = omega (arith, futures-take n xs)

futures-persisted :
    (write : String → Effect) (source value : String) (read_back : Option String)
    → is_future (write value) ≡ 0
    → futures (persisted write source value read_back) ≡ 0
unfolding persisted
futures-persisted write source value read_back h = ground arith

futures-if : (b : Bool) (xs : List Effect) → futures xs ≡ 0 → futures (if b then xs else []) ≡ 0
futures-if true xs h = h
futures-if false xs h = refl

-- The notices of a round settle nobody's future.
futures-round_notices :
    (item : WorkItem) (r : Report) (still : Bool) (busy : Option ℕ) (now : ℕ)
    → futures (round_notices item r still busy now) ≡ 0
unfolding round_notices
futures-round_notices item r still busy now = simp futures-append (
    omega (
      arith,
      futures-if (r.zero_output && not r.error) (zero_output_error ∷ []) refl,
      futures-if (truthy r.cc_session_id) _ (
          futures-persisted anchor_persisted "resume_anchor" (or_else r.cc_session_id "")
            r.anchor_read_back refl),
      futures-if (truthy r.claude_account && item.persists_account) _ (
          futures-persisted account_persisted "claude_account" (or_else r.claude_account "")
            r.account_read_back refl),
    ))

futures-take_notices :
    (n : ℕ) (item : WorkItem) (r : Report) (still : Bool) (busy : Option ℕ) (now : ℕ)
    → futures (take n (round_notices item r still busy now)) ≡ 0
futures-take_notices n item r still busy now = omega (
  arith,
  futures-take n (round_notices item r still busy now),
  futures-round_notices item r still busy now,
)

-- The effects of a session before a list of notices and one settled future.
futures_round :
    (old notices : List Effect) (last : Effect)
    → futures notices ≡ 0
    → futures (old ++ (notices ++ last ∷ [])) ≡ futures old + is_future last
futures_round old notices last h =
    omega (arith, futures-append old (notices ++ last ∷ []), futures-append notices (last ∷ []), h)

enqueue-IsOrdered :
    (item : WorkItem) (now : ℕ) (s : Session) → IsOrdered s → IsOrdered (enqueue item now s)
unfolding enqueue mark_busy
enqueue-IsOrdered item now s h = record {
  fifo = ap (λ l. l ++ item ∷ []) h.fifo ∙ append_assoc s.started (items s.queue) (item ∷ []);
  settled_once = ground (arith, futures-append s.effects (running_changed true ∷ []));
}

take_item-IsOrdered :
    (item : WorkItem) (rest : List WorkItem) (s : Session)
    → items s.queue ≡ item ∷ rest
    → in_run s.consumer ≡ 0
    → IsOrdered s
    → IsOrdered (take_item item rest s)
unfolding take_item
take_item-IsOrdered item rest s head free h = record {
  fifo = h.fifo ∙ ap (◌++◌ s.started) head ∙ sym (append_assoc s.started (item ∷ []) rest);
  settled_once = omega (arith, h.settled_once, length-append s.started (item ∷ []));
}

relay_some_fifo :
    (session account : Bool) (item : WorkItem) (r : Report) (s : Session)
    → s.accepted ≡ s.started ++ items s.queue
    → (relay_some session account item r s).accepted
      ≡ (relay_some session account item r s).started
        ++ items (relay_some session account item r s).queue
unfolding relay_account relay_session
relay_some_fifo true true item r s h = h
relay_some_fifo true false item r s h = h
relay_some_fifo false true item r s h = h
relay_some_fifo false false item r s h = h

relay_some_started :
    (session account : Bool) (item : WorkItem) (r : Report) (s : Session)
    → (relay_some session account item r s).started ≡ s.started
unfolding relay_account relay_session
relay_some_started true true item r s = refl
relay_some_started true false item r s = refl
relay_some_started false true item r s = refl
relay_some_started false false item r s = refl

break_off-IsOrdered :
    (item : WorkItem) (r : Report) (now n : ℕ) (session account : Bool) (s : Session)
    → s.consumer ≡ running item
    → IsOrdered s
    → IsOrdered (break_off item r now n session account s)
unfolding break_off
break_off-IsOrdered item r now n session account s at h = record {
  fifo = relay_some_fifo session account item r s h.fifo;
  settled_once = omega (
    arith,
    h.settled_once,
    ap in_run at,
    ap length (relay_some_started session account item r s),
    futures_round s.effects _ future_rejected
        (futures-take_notices n item r (not (is_empty (items s.queue))) s.busy now),
  );
}

finish-IsOrdered :
    (done : WorkItem) (w : Bool) (l : List WorkItem) (s : Session)
    → items s.queue ≡ l
    → in_run s.consumer ≡ 0
    → IsOrdered s
    → IsOrdered (finish done w l s)
unfolding finish teardown
finish-IsOrdered done w [] s e free h = record {
  fifo = h.fifo ∙ ap (◌++◌ s.started) e;
  settled_once =
      omega (arith, h.settled_once, free, futures-append s.effects (running_changed w ∷ []));
}
finish-IsOrdered done w (item ∷ rest) s e free h = take_item-IsOrdered item rest s e free h

begin-IsOrdered :
    (l : List WorkItem) (s : Session)
    → items s.queue ≡ l
    → in_run s.consumer ≡ 0
    → IsOrdered s
    → IsOrdered (begin l s)
unfolding begin
begin-IsOrdered [] s e free h = h
begin-IsOrdered (item ∷ rest) s e free h = take_item-IsOrdered item rest s e free h

step_consumer-IsOrdered :
    (i : Input) (s : Session) (c : Consumer)
    → s.consumer ≡ c
    → IsOrdered s
    → IsOrdered (step_consumer i c s)
unfolding step_consumer
step_consumer-IsOrdered start s created at h =
    begin-IsOrdered (items s.queue) s refl (ap in_run at) h
step_consumer-IsOrdered (returned r now) s (running item) at h = record {
  fifo = unfold settle relay_account relay_session in h.fifo;
  settled_once =
      unfold settle relay_account relay_session in
      omega (
        arith,
        h.settled_once,
        ap in_run at,
        futures_round s.effects _ (future_resolved r.cc_session_id)
            (futures-round_notices item r (not (is_empty (items s.queue))) s.busy now),
      );
}
step_consumer-IsOrdered (raised r now n session account) s (running item) at h =
    break_off-IsOrdered item r now n session account s at h
step_consumer-IsOrdered (ended w) s (settled item) at h =
    finish-IsOrdered item w (items s.queue) s refl (ap in_run at) h
step_consumer-IsOrdered _ s c at h = h

pub step-IsOrdered : (i : Input) (s : Session) → IsOrdered s → IsOrdered (step i s)
unfolding step
step-IsOrdered (message item now) s h = enqueue-IsOrdered item now s h
step-IsOrdered i s h = step_consumer-IsOrdered i s s.consumer refl h

steps-IsOrdered_from : (is : List Input) (s : Session) → IsOrdered s → IsOrdered (steps is s)
unfolding steps
steps-IsOrdered_from [] s h = h
steps-IsOrdered_from (i ∷ is) s h = steps-IsOrdered_from is (step i s) (step-IsOrdered i s h)

-- However messages, runs, failures and ends of rounds interleave: the items are taken in the order
-- in which they were queued, none lost and none twice; and as many futures are settled as runs
-- have come to an end.
pub steps-IsOrdered : (is : List Input) → IsOrdered (steps is idle)
steps-IsOrdered is = steps-IsOrdered_from is idle (record { fifo = refl; settled_once = refl })
