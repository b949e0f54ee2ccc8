-- ===== src/MasterQueue/Drain.antt =====
-- That src/agents/master_cc_queue.py drains the queue: the session ends with nothing left to run.
use claude_code_manager.Base.{
  ℕ, ◌+◌, ◌-◌, ◌≤◌, ◌≡◌, refl, sym, ◌∙◌, ap, Bool, false, Option, none, some, List, [], ◌∷◌, ◌++◌,
  arith, length, append-nil,
}
use claude_code_manager.MasterQueue.{
  Report, Session, Consumer, absent, created, running, settled, idle, items, take_item, teardown,
  begin, finish, relay_session, relay_account, settle, Input, start, returned, ended, step_consumer,
  step, steps,
}
use claude_code_manager.MasterQueue.Busy.{
  IsConsistent, steps-IsConsistent, steps-IsConsistent_from, holds_item, has_work, is_some,
}
use claude_code_manager.MasterQueue.Order.{IsOrdered, steps-IsOrdered, futures, in_run}

-- A run that returns: its report, when, and whether a worker runs at the end.
abbrev pub Round : Type 0
Round = Report × ℕ × Bool

-- What the event loop does for a round; `start` is for a consumer that has just been created.
abbrev pub round_inputs : Round → List Input
round_inputs (r, now, w) = start ∷ returned r now ∷ ended w ∷ []

abbrev pub drain : List Round → List Input
drain [] = []
drain (r ∷ rs) = round_inputs r ++ drain rs

abbrev pub held : Consumer → ℕ
held (running item) = 1
held (settled item) = 1
held _ = 0

-- The items that wait or are worked on.
abbrev pub work : Session → ℕ
work s = length (items s.queue) + held s.consumer

round-work :
    (r : Report) (now : ℕ) (w : Bool) (s : Session)
    → IsConsistent s
    → work (steps (round_inputs (r, now, w)) s) ≡ work s - 1
unfolding steps step step_consumer begin take_item settle finish teardown relay_session
    relay_account
round-work r now w s h = ground arith

round-IsConsistent :
    (r : Round) (s : Session) → IsConsistent s → IsConsistent (steps (round_inputs r) s)
round-IsConsistent (r, now, w) s h =
    steps-IsConsistent_from (start ∷ returned r now ∷ ended w ∷ []) s h

steps-append : (is js : List Input) (s : Session) → steps (is ++ js) s ≡ steps js (steps is s)
unfolding steps
steps-append [] js s = refl
steps-append (i ∷ is) js s = steps-append is js (step i s)

drain-work :
    (rs : List Round) (s : Session)
    → IsConsistent s
    → work (steps (drain rs) s) ≡ work s - length rs
unfolding steps
drain-work [] s h = omega arith
drain-work ((r, now, w) ∷ rs) s h =
    let t = steps (round_inputs (r, now, w)) s in
    omega (
      arith,
      ap work (steps-append (round_inputs (r, now, w)) (drain rs) s),
      drain-work rs t (round-IsConsistent (r, now, w) s h),
      round-work r now w s h,
    )

-- What a session looks like that has run all its items.
pub record IsDrained (s : Session) : Type 0 where
  pub not_busy : s.busy ≡ none
  pub all_started : s.started ≡ s.accepted
  pub all_settled : futures s.effects ≡ length s.accepted

length-zero : {A : Type 0} (xs : List A) → length xs ≡ 0 → xs ≡ []
length-zero [] h = refl
length-zero (x ∷ xs) h = absurd (omega (arith, h))

no_items : (s : Session) → work s ≡ 0 → items s.queue ≡ []
no_items s h = length-zero (items s.queue) (omega (arith, h))

not_held : (c : Consumer) → held c ≡ 0 → holds_item c ≡ false
not_held absent h = refl
not_held created h = refl
not_held (running item) h = absurd (omega (arith, h))
not_held (settled item) h = absurd (omega (arith, h))

held-in_run : (c : Consumer) → in_run c ≤ held c
held-in_run absent = omega arith
held-in_run created = omega arith
held-in_run (running item) = omega arith
held-in_run (settled item) = omega arith

none_of_not_some : {A : Type 0} (o : Option A) → is_some o ≡ false → o ≡ none
none_of_not_some none h = refl
none_of_not_some (some a) h = ground (arith, h)

no_work-has_work : (s : Session) → work s ≡ 0 → has_work s ≡ false
no_work-has_work s h = rw (no_items s h, not_held s.consumer (omega (arith, h))) refl

no_work-fifo : (s : Session) → IsOrdered s → work s ≡ 0 → s.started ≡ s.accepted
no_work-fifo s o h = sym (o.fifo ∙ ap (λ l. s.started ++ l) (no_items s h) ∙ append-nil s.started)

no_work-IsDrained : (s : Session) → IsConsistent s → IsOrdered s → work s ≡ 0 → IsDrained s
no_work-IsDrained s c o h = record {
  not_busy = none_of_not_some s.busy (c.busy_is_work ∙ no_work-has_work s h);
  all_started = no_work-fifo s o h;
  all_settled =
      omega (arith, o.settled_once, ap length (no_work-fifo s o h), held-in_run s.consumer, h);
}

-- From any state that messages, runs and failures lead to, runs that return drain the queue: when
-- at least as many of them return as items wait or are worked on, nothing is left over; each
-- accepted message was taken, its caller's future settled, and the session is not busy.
pub drain-IsDrained :
    (is : List Input) (rs : List Round)
    → work (steps is idle) ≤ length rs
    → IsDrained (steps (is ++ drain rs) idle)
drain-IsDrained is rs h =
    no_work-IsDrained (steps (is ++ drain rs) idle) (steps-IsConsistent (is ++ drain rs))
      (steps-IsOrdered (is ++ drain rs))
      (omega (
        arith,
        h,
        ap work (steps-append is (drain rs) idle),
        drain-work rs (steps is idle) (steps-IsConsistent is),
      ))
