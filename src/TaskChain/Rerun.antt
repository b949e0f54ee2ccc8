-- ===== src/TaskChain/Rerun.antt =====
-- A completion of src/core/task_chain.py that is handled again.
use claude_code_manager.Base.{
  ℕ, suc, ◌≡◌, refl, sym, ◌∙◌, ap, subst, Bool, true, false, ◌&&◌, ◌⊎◌, Option, none, some, List,
  ◌∷◌, length, Text, ltb, get_elem?, is_empty, ok, ok-inj, >>=-eq-ok, Bool-cases, Option-cases, inl,
  inr, arith, ℤ, ==-refl, ℕ_eq,
}
use claude_code_manager.TaskChain.{
  World, SessionEvent, master_woke_after_summary, master_woke, build, StepConfig, Thread,
  TaskConfig, Reading, taken, fire, spawn_step, trigger_master_judged, wake_master_with_chain,
  advance, complete, handle_step_completion, is_zero, handled,
}
use claude_code_manager.TaskChain.Judged.{master_woke-build}

-- What a completion that is handled again makes of a world: nothing, or, only where no output of the
-- master follows the last terminal summary of the thread, one more wake for the thread.
abbrev pub IsRerun : ℕ → World → World → Type 0
IsRerun thread w w' =
    (w' ≡ w)
    ⊎ ((master_woke_after_summary w.chat thread ≡ false)
        × (summary : Text) × (w'
            ≡ record w { wakes = record { thread = thread; summary = summary } ∷ w.wakes }))

trigger_master_judged-IsRerun :
    (s : Text) (thread : ℕ) (w : World) → IsRerun thread w (trigger_master_judged s thread w)
unfolding trigger_master_judged
trigger_master_judged-IsRerun s thread w = elim (Bool-cases (master_woke thread (build w.chat))) [
  | inl h ↦ inl (rw h refl)
  | inr h ↦ inr (sym (master_woke-build w.chat thread) ∙ h, s, rw h refl)
]

-- The same world, whatever the chat events are by then.
abbrev pub with_chat : List SessionEvent → World → World
with_chat chat w = record w { chat = chat }

-- What a spawn that succeeds has fired.
pub spawn_step-fire :
    (is_space : ℕ → Bool) (task : TaskConfig) (index : ℕ) (root : Option ℕ) (previous : Text)
    (w w' : World)
    → spawn_step is_space task index root previous w ≡ ok w'
    → (step : StepConfig) × (fire is_space task index root previous step w ≡ w')
unfolding spawn_step
spawn_step-fire is_space task index root previous w w' h =
    elim (Option-cases (get_elem? task.steps index)) [
      | inl e ↦ absurd (ground (arith, h, e))
      | inr (step, e) ↦ (step, ok-inj (rw (spawn_step, e) at h))
    ]

fire-taken :
    (is_space : ℕ → Bool) (task : TaskConfig) (index root : ℕ) (previous : Text) (step : StepConfig)
    (w : World)
    → taken (some root) (some index) (fire is_space task index (some root) previous step w).threads
      ≡ true
unfolding fire taken
fire-taken is_space task index root previous step w = rw (==-refl root, ==-refl index) refl

not_both : {b : Bool} → b ≡ true → b ≡ false → ⊥
not_both h k = cc

module _ (r : Reading) (t : Thread) (root : ℕ) (in_root : t.chain_root ≡ some root) where
  -- A chain that has advanced has the thread of its next step.
  advance-taken :
      (task : TaskConfig) (n : ℕ) (w w' : World)
      → is_empty (r.result_of t.id) ≡ false
      → advance r task t n w ≡ ok w'
      → taken t.chain_root (some (suc n)) w'.threads ≡ true
  unfolding advance
  advance-taken task n w w' b h = elim (Bool-cases (taken t.chain_root (some (suc n)) w.threads)) [
    | inl e ↦ subst (λ x. taken t.chain_root (some (suc n)) x.threads ≡ true) (ok-inj (rw e at h)) e
    | inr e ↦
        let (step, fired) =
          spawn_step-fire r.is_space task (suc n) t.chain_root (r.result_of t.id) w w'
            (rw (e, b) at h) in
        subst (λ x. taken t.chain_root (some (suc n)) x.threads ≡ true) fired
          (rw in_root (fire-taken r.is_space task (suc n) root (r.result_of t.id) step w))
  ]

  advance_again :
      (task : TaskConfig) (n : ℕ) (w w' : World) (chat : List SessionEvent)
      → advance r task t n w ≡ ok w'
      → (again : World) × (advance r task t n (with_chat chat w') ≡ ok again)
        × IsRerun t.id (with_chat chat w') again
  unfolding advance wake_master_with_chain
  advance_again task n w w' chat h =
      elim (Bool-cases (taken t.chain_root (some (suc n)) w'.threads)) [
        | inl e ↦ (with_chat chat w', rw e refl, inl refl)
        | inr e ↦ elim (Bool-cases (is_empty (r.result_of t.id))) [
          | inl b ↦ rw (e, b) (_, refl, trigger_master_judged-IsRerun _ t.id (with_chat chat w'))
          | inr b ↦ absurd (not_both (advance-taken task n w w' b h) e)
        ]
      ]

  complete_again :
      (task : Option TaskConfig) (n : ℕ) (exit : ℤ) (w w' : World) (chat : List SessionEvent)
      → complete r task t n exit w ≡ ok w'
      → (again : World) × (complete r task t n exit (with_chat chat w') ≡ ok again)
        × IsRerun t.id (with_chat chat w') again
  unfolding complete wake_master_with_chain
  complete_again none n exit w w' chat h =
      (_, refl, trigger_master_judged-IsRerun _ t.id (with_chat chat w'))
  complete_again (some task) n exit w w' chat h = elim (Bool-cases (is_empty task.steps)) [
    | inl e ↦ rw e (_, refl, trigger_master_judged-IsRerun _ t.id (with_chat chat w'))
    | inr e ↦ elim (Bool-cases (is_zero exit && ltb (suc n) (length task.steps))) [
      | inl b ↦ rw (e, b) (advance_again task n w w' chat (rw (e, b) at h))
      | inr b ↦ rw (e, b) (_, refl, trigger_master_judged-IsRerun _ t.id (with_chat chat w'))
    ]
  ]

  -- A completion of a thread of a chain that is handled again, whatever chat events are there by
  -- then, spawns nothing, and changes nothing where an output of the master follows the last terminal
  -- summary of the thread; where none does, it adds at most one more wake for the thread.
  pub handle_step_completion_again :
      (task : Option TaskConfig) (exit : ℤ) (w w' : World) (b : Bool) (chat : List SessionEvent)
      → handle_step_completion r task t exit w ≡ ok (w', b)
      → (again : World) × (handle_step_completion r task t exit (with_chat chat w') ≡ ok (again, b))
        × IsRerun t.id (with_chat chat w') again
  unfolding handle_step_completion
  handle_step_completion_again task exit w w' b chat h = elim (Option-cases t.step_index) [
    | inl e ↦
        let pair = ok-inj (rw (handle_step_completion, e) at h) in
        (
          with_chat chat w',
          rw (handle_step_completion, e) (ap (λ p. ok (with_chat chat w', p.1)) pair),
          inl refl,
        )
    | inr (n, e) ↦
        let (a, done, rest) =
          >>=-eq-ok (complete r task t n exit w) _ (rw (handle_step_completion, e) at h) in
        let pair = ok-inj rest in
        let (again, returned, rerun) =
          complete_again task n exit w w' chat (done ∙ ap (λ p. ok p.0) pair) in
        (
          again,
          rw (handle_step_completion, e) (ap handled returned ∙ ap (λ p. ok (again, p.1)) pair),
          rerun,
        )
  ]
