-- ===== src/MasterQueue/Requests.antt =====
-- What stands around the queue in src/agents/master_cc_queue.py: a message, its replay after a
-- restart, the ids of the messages that the process owns, and the end of a turn on request.
use claude_code_manager.Base.{
  ℕ, ◌≡◌, refl, sym, ◌∙◌, ap, subst, Bool, true, false, Option, none, some, List, [], ◌∷◌, ◌++◌,
  String, if◌then◌else◌, Outcome, ok, ◌>>=◌, All, any, ok-inj, >>=-eq-ok, Bool-cases, inl, inr,
  append_assoc, append-nil,
}
use claude_code_manager.MasterQueue.{
  WorkItem, Session, Consumer, absent, created, running, settled, items, truthy, enqueue,
  ensure_consumer,
}
use claude_code_manager.Runs.Process.{Recorded, Host, RunError, is_run_alive}

abbrev pub current_item : Consumer → Option WorkItem
current_item (running item) = some item
current_item (settled item) = some item
current_item _ = none

unfoldable pub running_user_event_id : Session → Option String
running_user_event_id s = elim (current_item s.consumer) [
  | none ↦ none
  | some item ↦ item.user_event_id
]

abbrev pub event_ids : List WorkItem → List (Option String)
event_ids [] = []
event_ids (item ∷ l) =
    if truthy item.user_event_id then item.user_event_id ∷ event_ids l else event_ids l

abbrev pub listed {ℓ} : {A : Type ℓ} → Option A → List A
listed none = []
listed (some a) = a ∷ []

-- `queued_user_event_ids`, the set as a list
unfoldable pub queued_user_event_ids : Session → List (Option String)
queued_user_event_ids s = event_ids (listed (current_item s.consumer) ++ items s.queue)

-- A message: whether its session is a terminal, whether its event is in the log already, the id
-- that a persisted event gets, and the item that it makes.
pub record Request : Type 0 where
  pub is_terminal : Bool
  pub skip_user_event : Bool
  pub persisted_id : Option String
  pub item : WorkItem

abbrev pub item_of : Request → WorkItem
item_of r = record (r.item) {
  user_event_id = if r.skip_user_event then r.item.user_event_id else r.persisted_id;
}

-- `run_message`, up to the wait for its future
unfoldable pub run_message : Request → ℕ → Session → Session
run_message r now s = if r.is_terminal then s else enqueue (item_of r) now s

-- `replay_user_message`, of an event whose content may be no text or empty
unfoldable pub replay_user_message : Option String → Request → ℕ → Session → Session
replay_user_message content r now s =
    if truthy content then run_message (record r { skip_user_event = true }) now s else s

pub data CancelEffect : Type 0 where
  backend_terminated master_run_cleared : CancelEffect
  group_killed : ℕ → CancelEffect

abbrev pub kill_detached : Bool → Option ℕ → List CancelEffect × Bool
kill_detached true (some pid) = (group_killed pid ∷ master_run_cleared ∷ [], true)
kill_detached _ _ = ([], false)

-- `cancel_master`, at whether a backend runs here, the record of the metadata, and whether a session
-- manager was given
unfoldable pub cancel_master :
    Host → Bool → Option Recorded → Bool → Outcome RunError (List CancelEffect × Bool)
cancel_master host true r managed = ok (backend_terminated ∷ [], true)
cancel_master host false (some r) true =
    is_run_alive host r >>= λ alive. ok (kill_detached alive r.pid)
cancel_master host false _ _ = ok ([], false)

-- The recorded process is proven to live under this pid.
abbrev pub IsProvenAlive : Host → Option Recorded → ℕ → Type 0
IsProvenAlive host r pid =
    (recorded : Recorded) × (r ≡ some recorded)
    × (recorded.pid ≡ some pid)
    × (is_run_alive host recorded ≡ ok true)

-- What an effect rests on: the backend runs here, or the probe proves that the recorded process
-- lives.
abbrev pub IsAuthorized : Host → Bool → Option Recorded → CancelEffect → Type 0
IsAuthorized host active r backend_terminated = active ≡ true
IsAuthorized host active r master_run_cleared =
    (active ≡ false) × (pid : ℕ) × IsProvenAlive host r pid
IsAuthorized host active r (group_killed pid) = (active ≡ false) × IsProvenAlive host r pid

-- An effect that reaches a process.
abbrev pub is_signal : CancelEffect → Bool
is_signal backend_terminated = true
is_signal master_run_cleared = false
is_signal (group_killed pid) = true

pub record IsCancelled (host : Host) (active : Bool) (r : Option Recorded) (managed : Bool)
    (answer : List CancelEffect × Bool) : Type 0 where
  pub authorized : All (IsAuthorized host active r) answer.0
  pub answers : answer.1 ≡ any is_signal answer.0
  pub terminates : active ≡ true → answer.0 ≡ backend_terminated ∷ []
  pub kills :
      (pid : ℕ)
      → active ≡ false
      → managed ≡ true
      → IsProvenAlive host r pid
      → answer.0 ≡ group_killed pid ∷ master_run_cleared ∷ []

unlike : true ≡ false → ⊥
unlike e = cc

abbrev record_or : Recorded → Option Recorded → Recorded
record_or r none = r
record_or r (some recorded) = recorded

IsProvenAlive-own :
    (host : Host) (r : Recorded) (pid : ℕ)
    → IsProvenAlive host (some r) pid
    → (r.pid ≡ some pid) × (is_run_alive host r ≡ ok true)
IsProvenAlive-own host r pid (recorded, same, named, lives) =
    let own : r ≡ recorded = ap (record_or r) same in
    (ap (λ x. x.pid) own ∙ named, ap (is_run_alive host) own ∙ lives)

kill_detached-IsCancelled :
    (host : Host) (r : Recorded) (alive : Bool)
    → is_run_alive host r ≡ ok alive
    → IsCancelled host false (some r) true (kill_detached alive r.pid)
kill_detached-IsCancelled host r true probe = go r.pid refl
  where
    unnamed : {pid : ℕ} → none ≡ some pid → ⊥
    unnamed e = cc

    named :
        {a b : ℕ}
        → some a ≡ some b
        → ◌≡◌ {A = List CancelEffect}
            (group_killed a ∷ master_run_cleared ∷ [])
            (group_killed b ∷ master_run_cleared ∷ [])
    named e = cc

    go : (o : Option ℕ) → r.pid ≡ o → IsCancelled host false (some r) true (kill_detached true o)
    go none e = record {
      authorized = tt;
      answers = refl;
      terminates = λ h. absurd (unlike (sym h));
      kills = λ pid idle managed lives.
          absurd (unnamed (sym e ∙ (IsProvenAlive-own host r pid lives).0));
    }
    go (some pid) e = record {
      authorized = ((refl, (r, refl, e, probe)), ((refl, pid, (r, refl, e, probe)), tt));
      answers = refl;
      terminates = λ h. absurd (unlike (sym h));
      kills = λ other idle managed lives. named (sym e ∙ (IsProvenAlive-own host r other lives).0);
    }
kill_detached-IsCancelled host r false probe = record {
  authorized = tt;
  answers = refl;
  terminates = λ h. absurd (unlike (sym h));
  kills =
      λ pid idle managed lives. absurd (dead (sym probe ∙ (IsProvenAlive-own host r pid lives).1));
}
  where
    dead : ◌≡◌ {A = Outcome RunError Bool} (ok false) (ok true) → ⊥
    dead e = cc

-- A turn is ended on request only where its backend runs here, or where the probe proves that the
-- recorded process lives; where it runs here, it is terminated; where it does not, a session manager
-- was given and the recorded process is proven to live, exactly that process is killed, and then the
-- record is cleared; and the answer is true exactly where a process was signalled.
pub cancel_master-IsCancelled :
    (host : Host) (active : Bool) (r : Option Recorded) (managed : Bool)
    (answer : List CancelEffect × Bool)
    → cancel_master host active r managed ≡ ok answer
    → IsCancelled host active r managed answer
unfolding cancel_master
cancel_master-IsCancelled host true r managed answer h =
    subst (IsCancelled host true r managed) (ok-inj h) (record {
      authorized = (refl, tt);
      answers = refl;
      terminates = λ e. refl;
      kills = λ pid idle given lives. absurd (unlike idle);
    })
cancel_master-IsCancelled host false none managed answer h =
    subst (IsCancelled host false none managed) (ok-inj h) (record {
      authorized = tt;
      answers = refl;
      terminates = λ e. absurd (unlike (sym e));
      kills = λ pid idle given (recorded, same, named, lives). cc;
    })
cancel_master-IsCancelled host false (some r) false answer h =
    subst (IsCancelled host false (some r) false) (ok-inj h) (record {
      authorized = tt;
      answers = refl;
      terminates = λ e. absurd (unlike (sym e));
      kills = λ pid idle given lives. absurd (unlike (sym given));
    })
cancel_master-IsCancelled host false (some r) true answer h =
    let (alive, probe, returned) = >>=-eq-ok (is_run_alive host r) _ h in
    subst (IsCancelled host false (some r) true) (ok-inj returned)
      (kill_detached-IsCancelled host r alive probe)

event_ids-append : (xs ys : List WorkItem) → event_ids (xs ++ ys) ≡ event_ids xs ++ event_ids ys
event_ids-append [] ys = refl
event_ids-append (x ∷ xs) ys = elim (Bool-cases (truthy x.user_event_id)) [
  | inl h ↦ rw (h) (ap (◌∷◌ x.user_event_id) (event_ids-append xs ys))
  | inr h ↦ rw (h) (event_ids-append xs ys)
]

ensured_item : (c : Consumer) → current_item (ensure_consumer c) ≡ current_item c
ensured_item absent = refl
ensured_item created = refl
ensured_item (running item) = refl
ensured_item (settled item) = refl

pub enqueue-owned :
    (item : WorkItem) (now : ℕ) (s : Session)
    → queued_user_event_ids (enqueue item now s) ≡ queued_user_event_ids s ++ event_ids (item ∷ [])
unfolding queued_user_event_ids enqueue
enqueue-owned item now s =
    ap (λ c. event_ids (listed c ++ (items s.queue ++ item ∷ []))) (ensured_item s.consumer)
    ∙ ap event_ids
        (sym (append_assoc (listed (current_item s.consumer)) (items s.queue) (item ∷ [])))
    ∙ event_ids-append (listed (current_item s.consumer) ++ items s.queue) (item ∷ [])

-- A message that is redelivered to a session that is no terminal is owned under the id of its
-- original event, behind the messages that the process owns already, in every state. An event
-- without text changes nothing.
pub replay_user_message-owned :
    (content : Option String) (r : Request) (now : ℕ) (s : Session)
    → r.is_terminal ≡ false
    → queued_user_event_ids (replay_user_message content r now s)
      ≡ queued_user_event_ids s ++ (if truthy content then event_ids (r.item ∷ []) else [])
unfolding replay_user_message run_message
replay_user_message-owned content r now s h = elim (Bool-cases (truthy content)) [
  | inl e ↦ rw (e, h) (enqueue-owned (item_of (record r { skip_user_event = true })) now s)
  | inr e ↦ rw (e) (sym (append-nil (queued_user_event_ids s)))
]
