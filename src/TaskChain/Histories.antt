-- ===== src/TaskChain/Histories.antt =====
-- The chains that histories of src/core/task_chain.py lead to: no step of a chain has two threads.
use claude_code_manager.Base.{
  ℕ, zero, suc, ◌≡◌, refl, subst, Bool, true, false, not, ◌&&◌, ◌||◌, Option, none, some, List, [],
  ◌∷◌, ◌++◌, length, Text, ltb, get_elem?, is_empty, All, Outcome, ok, raise, ok-inj, Bool-cases,
  Option-cases, inl, inr, arith, ℤ,
}
use claude_code_manager.TaskChain.{
  World, SessionEvent, master_woke, build, Thread, TaskConfig, StepConfig, ChainError, Reading,
  same, taken, fire, spawn_step, trigger_master_judged, wake_master_with_chain, advance, complete,
  handle_step_completion, is_zero, handled, or_own,
}
use claude_code_manager.TaskChain.Rerun.{spawn_step-fire}

-- What happens to a session: the first step of a task is spawned, another thread is created, chat
-- events arrive, or the thread at a place of the list completes, under the task that the configuration has at the time.
pub data Happening : Type 0 where
  first_step : TaskConfig → Happening
  other_thread : Text → Happening
  chatted : List SessionEvent → Happening
  completion : Option TaskConfig → ℕ → ℤ → Happening

abbrev pub kept : {A : Type 0} → Outcome ChainError A → (A → World) → World → World
kept (ok a) f w = f a
kept (raise e) f w = w

abbrev pub create_thread : Text → World → World
create_thread description w = record w {
  threads =
      record { id = w.next_id; description = description; chain_root = none; step_index = none }
      ∷ w.threads;
  next_id = suc w.next_id;
}

abbrev pub complete_at : Reading → Option TaskConfig → Option Thread → ℤ → World → World
complete_at r task none exit w = w
complete_at r task (some t) exit w = kept (handle_step_completion r task t exit w) (λ p. p.0) w

unfoldable pub happen : Reading → Happening → World → World
happen r (first_step task) w = kept (spawn_step r.is_space task 0 none [] w) (λ x. x) w
happen r (other_thread description) w = create_thread description w
happen r (chatted events) w = record w { chat = w.chat ++ events }
happen r (completion task place exit) w = complete_at r task (get_elem? w.threads place) exit w

unfoldable pub happen_all : Reading → List Happening → World → World
happen_all r [] w = w
happen_all r (h ∷ hs) w = happen_all r hs (happen r h w)

abbrev pub no_threads : World
no_threads = record { threads = []; next_id = 0; spawns = []; wakes = []; chat = [] }

-- Whether a thread is of no chain, or the only one at its step among it and the rest.
abbrev pub is_single : Thread → List Thread → Bool
is_single t ts = same t.step_index none || not (taken t.chain_root t.step_index ts)

abbrev pub AllSingle : List Thread → Type 0
AllSingle [] = Unit
AllSingle (t ∷ ts) = (is_single t ts ≡ true) × AllSingle ts

abbrev pub root_below : ℕ → Option ℕ → Bool
root_below next none = true
root_below next (some root) = ltb root next

pub record IsSingle (w : World) : Type 0 where
  pub single : AllSingle w.threads
  pub below : All (λ t. root_below w.next_id t.chain_root ≡ true) w.threads

below_differs :
    (next : ℕ) (root : Option ℕ) → root_below next root ≡ true → same root (some next) ≡ false
below_differs next none h = refl
below_differs next (some k) h = ground (arith, h)

fresh_root :
    (next : ℕ) (index : Option ℕ) (ts : List Thread)
    → All (λ t. root_below next t.chain_root ≡ true) ts
    → taken (some next) index ts ≡ false
unfolding taken
fresh_root next index [] h = refl
fresh_root next index (t ∷ ts) h =
    rw (below_differs next t.chain_root h.0) (fresh_root next index ts h.1)

below_suc :
    (next : ℕ) (ts : List Thread)
    → All (λ t. root_below next t.chain_root ≡ true) ts
    → All (λ t. root_below (suc next) t.chain_root ≡ true) ts
below_suc next [] h = tt
below_suc next (t ∷ ts) h = (ground (arith, h.0), below_suc next ts h.1)

fire-IsSingle :
    (is_space : ℕ → Bool) (task : TaskConfig) (index : ℕ) (root : Option ℕ) (previous : Text)
    (step : StepConfig) (w : World)
    → IsSingle w
    → root_below w.next_id root ≡ true
    → taken (some (or_own root w.next_id)) (some index) w.threads ≡ false
    → IsSingle (fire is_space task index root previous step w)
unfolding fire
fire-IsSingle is_space task index root previous step w h below free = record {
  single = (rw (free) refl, h.single);
  below = (ground (arith, below), below_suc w.next_id w.threads h.below);
}

wake-IsSingle :
    (s : Text) (thread : ℕ) (w : World) → IsSingle w → IsSingle (trigger_master_judged s thread w)
unfolding trigger_master_judged
wake-IsSingle s thread w h = elim (Bool-cases (master_woke thread (build w.chat))) [
  | inl e ↦ rw (e) h
  | inr e ↦ rw (e) (record { single = h.single; below = h.below })
]

All-get_elem? :
    {A : Type 0} (P : A → Type 0) (xs : List A) (n : ℕ) (a : A)
    → All P xs
    → get_elem? xs n ≡ some a
    → P a
All-get_elem? P [] n a h e = absurd (ground (arith, e))
All-get_elem? P (x ∷ xs) zero a h e = subst P (ground (arith, e)) h.0
All-get_elem? P (x ∷ xs) (suc n) a h e = All-get_elem? P xs n a h.1 e

module _ (r : Reading) where
  spawn_step-IsSingle :
      (task : TaskConfig) (index : ℕ) (root : Option ℕ) (previous : Text) (w w' : World)
      → IsSingle w
      → root_below w.next_id root ≡ true
      → taken (some (or_own root w.next_id)) (some index) w.threads ≡ false
      → spawn_step r.is_space task index root previous w ≡ ok w'
      → IsSingle w'
  spawn_step-IsSingle task index root previous w w' h below free e =
      let (step, fired) = spawn_step-fire r.is_space task index root previous w w' e in
      subst IsSingle fired (fire-IsSingle r.is_space task index root previous step w h below free)

  free_root :
      (root index : Option ℕ) (w : World)
      → IsSingle w
      → taken root index w.threads ≡ false
      → taken (some (or_own root w.next_id)) index w.threads ≡ false
  free_root none index w h f = fresh_root w.next_id index w.threads h.below
  free_root (some k) index w h f = f

  advance-IsSingle :
      (task : TaskConfig) (t : Thread) (n : ℕ) (w w' : World)
      → IsSingle w
      → root_below w.next_id t.chain_root ≡ true
      → advance r task t n w ≡ ok w'
      → IsSingle w'
  unfolding advance wake_master_with_chain
  advance-IsSingle task t n w w' h below e =
      elim (Bool-cases (taken t.chain_root (some (suc n)) w.threads)) [
        | inl f ↦ subst IsSingle (ok-inj (rw (f) at e)) h
        | inr f ↦ elim (Bool-cases (is_empty (r.result_of t.id))) [
          | inl b ↦ subst IsSingle (ok-inj (rw (f, b) at e)) (wake-IsSingle _ t.id w h)
          | inr b ↦
              spawn_step-IsSingle task (suc n) t.chain_root (r.result_of t.id) w w' h below
                (free_root t.chain_root (some (suc n)) w h f) (rw (f, b) at e)
        ]
      ]

  complete-IsSingle :
      (task : Option TaskConfig) (t : Thread) (n : ℕ) (exit : ℤ) (w w' : World)
      → IsSingle w
      → root_below w.next_id t.chain_root ≡ true
      → complete r task t n exit w ≡ ok w'
      → IsSingle w'
  unfolding complete wake_master_with_chain
  complete-IsSingle none t n exit w w' h below e =
      subst IsSingle (ok-inj e) (wake-IsSingle _ t.id w h)
  complete-IsSingle (some task) t n exit w w' h below e = elim (Bool-cases (is_empty task.steps)) [
    | inl f ↦ subst IsSingle (ok-inj (rw (f) at e)) (wake-IsSingle _ t.id w h)
    | inr f ↦ elim (Bool-cases (is_zero exit && ltb (suc n) (length task.steps))) [
      | inl b ↦ advance-IsSingle task t n w w' h below (rw (f, b) at e)
      | inr b ↦ subst IsSingle (ok-inj (rw (f, b) at e)) (wake-IsSingle _ t.id w h)
    ]
  ]

  kept_complete-IsSingle :
      (task : Option TaskConfig) (t : Thread) (exit : ℤ) (w : World)
      → IsSingle w
      → root_below w.next_id t.chain_root ≡ true
      → IsSingle (kept (handle_step_completion r task t exit w) (λ p. p.0) w)
  unfolding handle_step_completion
  kept_complete-IsSingle task t exit w h below = elim (Option-cases t.step_index) [
    | inl e ↦ rw (handle_step_completion, e) h
    | inr (n, e) ↦
        rw (handle_step_completion, e)
          (go (complete r task t n exit w) (λ w' q. complete-IsSingle task t n exit w w' h below q))
  ]
    where
      go :
          (m : Outcome ChainError World)
          → ((w' : World) → m ≡ ok w' → IsSingle w')
          → IsSingle (kept (handled m) (λ p. p.0) w)
      go (ok w') f = f w' refl
      go (raise e) f = h

  happen-IsSingle : (x : Happening) (w : World) → IsSingle w → IsSingle (happen r x w)
  unfolding happen
  happen-IsSingle (first_step task) w h = go (spawn_step r.is_space task 0 none [] w) (λ w' q.
      spawn_step-IsSingle task 0 none [] w w' h refl
        (fresh_root w.next_id (some 0) w.threads h.below) q)
    where
      go :
          (m : Outcome ChainError World)
          → ((w' : World) → m ≡ ok w' → IsSingle w')
          → IsSingle (kept m (λ x. x) w)
      go (ok w') f = f w' refl
      go (raise e) f = h
  happen-IsSingle (other_thread description) w h = record {
    single = (refl, h.single);
    below = (refl, below_suc w.next_id w.threads h.below);
  }
  happen-IsSingle (chatted events) w h = record { single = h.single; below = h.below }
  happen-IsSingle (completion task place exit) w h = go (get_elem? w.threads place) refl
    where
      go :
          (o : Option Thread)
          → get_elem? w.threads place ≡ o
          → IsSingle (complete_at r task o exit w)
      go none e = h
      go (some t) e = kept_complete-IsSingle task t exit w h (
          All-get_elem? (λ t. root_below w.next_id t.chain_root ≡ true) w.threads place t h.below e)

  happen_all-IsSingle_from :
      (xs : List Happening) (w : World) → IsSingle w → IsSingle (happen_all r xs w)
  unfolding happen_all
  happen_all-IsSingle_from [] w h = h
  happen_all-IsSingle_from (x ∷ xs) w h =
      happen_all-IsSingle_from xs (happen r x w) (happen-IsSingle x w h)

  -- Whatever starts of tasks, other threads, chat events and completions there are, in whatever order, repeated
  -- or under a changed configuration: no step of a chain has two threads.
  pub happen_all-IsSingle : (xs : List Happening) → IsSingle (happen_all r xs no_threads)
  happen_all-IsSingle xs =
      happen_all-IsSingle_from xs no_threads (record { single = tt; below = tt })
