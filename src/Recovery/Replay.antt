-- ===== src/Recovery/Replay.antt =====
-- src/core/init_master_recovery.py: the ids that the replay pass puts into the queue.
use claude_code_manager.Base.{
  ℕ, ◌≡◌, refl, sym, ap, ◌∙◌, Bool, true, false, Option, none, some, List, [], ◌∷◌, ◌++◌,
  append-nil, append_assoc, String, if◌then◌else◌, Bool-cases, inl, inr, filter, drop, All,
  All-append, All-map_of, zero, suc, String_eq,
}
use claude_code_manager.MasterQueue.{Session, truthy}
use claude_code_manager.MasterQueue.Requests.{queued_user_event_ids, replay_user_message-owned}
use claude_code_manager.Recovery.{
  Room, ChatEvent, done_event, other_event, user_event, same_id, has_event_id, is_unanswered,
  unanswered_user_events, replay_event, replay_events, request_of, behind_done,
}

-- The ids of the messages among the events that can be delivered.
abbrev pub id_in : ChatEvent → List (Option String)
id_in (user_event content id) = if truthy content then (if truthy id then id ∷ [] else []) else []
id_in _ = []

abbrev pub ids_in : List ChatEvent → List (Option String)
ids_in [] = []
ids_in (ev ∷ evs) = id_in ev ++ ids_in evs

replay_event-owned :
    (room : Room) (now : ℕ) (ev : ChatEvent) (s : Session)
    → room.is_terminal ≡ false
    → queued_user_event_ids (replay_event room now ev s) ≡ queued_user_event_ids s ++ id_in ev
replay_event-owned room now (user_event content id) s h =
    replay_user_message-owned content (request_of room id) now s h
replay_event-owned room now done_event s h = sym (append-nil (queued_user_event_ids s))
replay_event-owned room now other_event s h = sym (append-nil (queued_user_event_ids s))

pub replay_events-owned :
    (room : Room) (now : ℕ) (evs : List ChatEvent) (s : Session)
    → room.is_terminal ≡ false
    → queued_user_event_ids (replay_events room now evs s) ≡ queued_user_event_ids s ++ ids_in evs
unfolding replay_events
replay_events-owned room now [] s h = sym (append-nil (queued_user_event_ids s))
replay_events-owned room now (ev ∷ evs) s h =
    replay_events-owned room now evs (replay_event room now ev s) h
    ∙ ap (λ z. z ++ ids_in evs) (replay_event-owned room now ev s h)
    ∙ append_assoc (queued_user_event_ids s) (id_in ev) (ids_in evs)

-- Ids that are not in a set, and ids without a repetition.
abbrev pub AllNew : List (Option String) → List (Option String) → Type 0
AllNew skip = All λ id. has_event_id skip id ≡ false

abbrev pub IsUnique : List (Option String) → Type 0
IsUnique [] = Unit
IsUnique (id ∷ ids) = (has_event_id ids id ≡ false) × IsUnique ids

pub has_event_id-append :
    (xs ys : List (Option String)) (id : Option String)
    → has_event_id (xs ++ ys) id ≡ (if has_event_id xs id then true else has_event_id ys id)
has_event_id-append [] ys id = refl
has_event_id-append (x ∷ xs) ys id = elim (Bool-cases (same_id id x)) [
  | inl e ↦ rw e refl
  | inr e ↦ rw e (has_event_id-append xs ys id)
]

neither : (a b : Bool) → (if a then true else b) ≡ false → (a ≡ false) × (b ≡ false)
neither true b h = cc
neither false b h = (refl, h)

pub has_event_id-parts :
    (xs ys : List (Option String)) (id : Option String)
    → has_event_id (xs ++ ys) id ≡ false
    → (has_event_id xs id ≡ false) × (has_event_id ys id ≡ false)
has_event_id-parts xs ys id h =
    neither (has_event_id xs id) (has_event_id ys id) (sym (has_event_id-append xs ys id) ∙ h)

has_event_id-join :
    (xs ys : List (Option String)) (id : Option String)
    → has_event_id xs id ≡ false
    → has_event_id ys id ≡ false
    → has_event_id (xs ++ ys) id ≡ false
has_event_id-join xs ys id hx hy = has_event_id-append xs ys id ∙ rw hx hy

-- No id of the first is one of the second.
abbrev pub IsApart : List (Option String) → List (Option String) → Type 0
IsApart xs ys = All (λ id. has_event_id ys id ≡ false) xs

pub join-IsUnique :
    (xs ys : List (Option String)) → IsUnique xs → IsUnique ys → IsApart xs ys → IsUnique (xs ++ ys)
join-IsUnique [] ys hx hy apart = hy
join-IsUnique (x ∷ xs) ys hx hy apart =
    (has_event_id-join xs ys x hx.0 apart.0, join-IsUnique xs ys hx.1 hy apart.1)

parts-IsUnique :
    (xs ys : List (Option String)) → IsUnique (xs ++ ys) → IsUnique xs × IsUnique ys × IsApart xs ys
parts-IsUnique [] ys h = (tt, h, tt)
parts-IsUnique (x ∷ xs) ys h =
    let (left, right) = has_event_id-parts xs ys x h.0 in
    let (ux, uy, apart) = parts-IsUnique xs ys h.1 in ((left, ux), uy, (right, apart))

-- A filter keeps ids new and unique.
ids_in-filter_new :
    (p : ChatEvent → Bool) (id : Option String) (evs : List ChatEvent)
    → has_event_id (ids_in evs) id ≡ false
    → has_event_id (ids_in (filter p evs)) id ≡ false
ids_in-filter_new p id [] h = refl
ids_in-filter_new p id (ev ∷ evs) h =
    let (first, rest) = has_event_id-parts (id_in ev) (ids_in evs) id h in
    let kept = ids_in-filter_new p id evs rest in
    elim (Bool-cases (p ev)) [
      | inl e ↦ rw e (has_event_id-join (id_in ev) (ids_in (filter p evs)) id first kept)
      | inr e ↦ rw e kept
    ]

filter-IsUnique :
    (p : ChatEvent → Bool) (evs : List ChatEvent)
    → IsUnique (ids_in evs)
    → IsUnique (ids_in (filter p evs))
filter-IsUnique p [] h = tt
filter-IsUnique p (ev ∷ evs) h =
    let (first, rest, apart) = parts-IsUnique (id_in ev) (ids_in evs) h in
    let kept = filter-IsUnique p evs rest in
    elim (Bool-cases (p ev)) [
      | inl e ↦ rw e (
          join-IsUnique (id_in ev) (ids_in (filter p evs)) first kept
            (All-map_of _ _ (id_in ev) (λ id new. ids_in-filter_new p id evs new) apart))
      | inr e ↦ rw e kept
    ]

drop-IsUnique :
    (n : ℕ) (evs : List ChatEvent) → IsUnique (ids_in evs) → IsUnique (ids_in (drop n evs))
drop-IsUnique zero evs h = h
drop-IsUnique (suc n) [] h = tt
drop-IsUnique (suc n) (ev ∷ evs) h =
    drop-IsUnique n evs (parts-IsUnique (id_in ev) (ids_in evs) h).1

pub unanswered-IsUnique :
    (events : List ChatEvent) (skip : List (Option String))
    → IsUnique (ids_in events)
    → IsUnique (ids_in (unanswered_user_events events skip))
unfolding unanswered_user_events
unanswered-IsUnique events skip h =
    filter-IsUnique (is_unanswered skip) (drop (behind_done 0 0 events) events)
      (drop-IsUnique (behind_done 0 0 events) events h)

-- What is replayed was not to be skipped.
one-AllNew :
    (skip : List (Option String)) (ev : ChatEvent)
    → is_unanswered skip ev ≡ true
    → AllNew skip (id_in ev)
one-AllNew skip done_event h = tt
one-AllNew skip other_event h = tt
one-AllNew skip (user_event none id) h = tt
one-AllNew skip (user_event (some content) id) h = elim (Bool-cases (has_event_id skip id)) [
  | inl e ↦ absurd (clash (rw e at h))
  | inr e ↦ listed_new e
]
  where
    clash : false ≡ true → ⊥
    clash e = cc

    listed_new : has_event_id skip id ≡ false → AllNew skip (id_in (user_event (some content) id))
    listed_new e = elim (Bool-cases (truthy (some content))) [
      | inl c ↦ elim (Bool-cases (truthy id)) [ inl i ↦ rw (c, i) (e, tt) | inr i ↦ rw (c, i) tt ]
      | inr c ↦ rw c tt
    ]

filter-AllNew :
    (skip : List (Option String)) (evs : List ChatEvent)
    → AllNew skip (ids_in (filter (is_unanswered skip) evs))
filter-AllNew skip [] = tt
filter-AllNew skip (ev ∷ evs) = elim (Bool-cases (is_unanswered skip ev)) [
  | inl e ↦ rw e (All-append _ (id_in ev) _ (one-AllNew skip ev e) (filter-AllNew skip evs))
  | inr e ↦ rw e (filter-AllNew skip evs)
]

pub unanswered-AllNew :
    (events : List ChatEvent) (skip : List (Option String))
    → AllNew skip (ids_in (unanswered_user_events events skip))
unfolding unanswered_user_events
unanswered-AllNew events skip = filter-AllNew skip (drop (behind_done 0 0 events) events)
