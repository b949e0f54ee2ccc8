-- ===== src/Recovery/Covers.antt =====
-- src/core/init_master_recovery.py: which ids are among which, before and after the replay.
use claude_code_manager.Base.{
  ◌≡◌, refl, sym, ◌∙◌, Bool, true, false, not, Option, none, some, List, [], ◌∷◌, ◌++◌, String,
  if◌then◌else◌, Bool-cases, inl, inr, ◌⊎◌, filter, drop, All, All-append, All-map_of, eq_iff, ◌==◌,
  ==-refl, String_eq,
}
use claude_code_manager.MasterQueue.{truthy}
use claude_code_manager.Recovery.{
  ChatEvent, done_event, other_event, user_event, same_id, has_event_id, is_unanswered,
  unanswered_user_events, behind_done,
}
use claude_code_manager.Recovery.Replay.{
  id_in, ids_in, AllNew, IsApart, has_event_id-append, has_event_id-parts,
}

equal_back : (a b : String) → (a == b) ≡ true → (b == a) ≡ true
equal_back a b h = rw ((eq_iff a b).0 h) (==-refl b)

same_id_sym : (a b : Option String) → same_id a b ≡ same_id b a
same_id_sym none none = refl
same_id_sym none (some b) = refl
same_id_sym (some a) none = refl
same_id_sym (some a) (some b) = elim (Bool-cases (a == b)) [
  | inl e ↦ rw (e, equal_back a b e) refl
  | inr e ↦ elim (Bool-cases (b == a)) [
    | inl f ↦ rw (equal_back b a f, f) refl
    | inr f ↦ rw (e, f) refl
  ]
]

same_id_self : (a : Option String) → same_id a a ≡ true
same_id_self none = refl
same_id_self (some a) = ==-refl a

abbrev pub AllIn : List (Option String) → List (Option String) → Type 0
AllIn ids = All λ id. has_event_id ids id ≡ true

-- An id is skipped, or it is among the ids.
abbrev pub IsCovered : List (Option String) → List (Option String) → Option String → Type 0
IsCovered skip ids id = (has_event_id skip id ≡ true) ⊎ (has_event_id ids id ≡ true)

left_in :
    (xs ys : List (Option String)) (id : Option String)
    → has_event_id xs id ≡ true
    → has_event_id (xs ++ ys) id ≡ true
left_in xs ys id h = has_event_id-append xs ys id ∙ rw h refl

right_in :
    (xs ys : List (Option String)) (id : Option String)
    → has_event_id ys id ≡ true
    → has_event_id (xs ++ ys) id ≡ true
right_in xs ys id h =
    has_event_id-append xs ys id
    ∙ elim (Bool-cases (has_event_id xs id)) [ inl e ↦ rw e refl | inr e ↦ rw e h ]

pub self_in : (xs : List (Option String)) → AllIn xs xs
self_in [] = tt
self_in (x ∷ xs) =
    (rw (same_id_self x) refl, All-map_of _ _ xs (λ id h. right_in (x ∷ []) xs id h) (self_in xs))

not-false : (b : Bool) → not b ≡ false → b ≡ true
not-false true h = refl
not-false false h = cc

answered-AllIn :
    (skip : List (Option String)) (ev : ChatEvent)
    → is_unanswered skip ev ≡ false
    → AllIn skip (id_in ev)
answered-AllIn skip done_event h = tt
answered-AllIn skip other_event h = tt
answered-AllIn skip (user_event none id) h = tt
answered-AllIn skip (user_event (some content) id) h = elim (Bool-cases (truthy (some content))) [
  | inl c ↦ elim (Bool-cases (truthy id)) [
    | inl i ↦ rw (c, i) (not-false (has_event_id skip id) h, tt)
    | inr i ↦ rw (c, i) tt
  ]
  | inr c ↦ rw c tt
]

filter-covers :
    (skip : List (Option String)) (evs : List ChatEvent)
    → All (IsCovered skip (ids_in (filter (is_unanswered skip) evs))) (ids_in evs)
filter-covers skip [] = tt
filter-covers skip (ev ∷ evs) =
    let later = ids_in (filter (is_unanswered skip) evs) in
    let rest = filter-covers skip evs in
    elim (Bool-cases (is_unanswered skip ev)) [
      | inl e ↦ rw e (
          All-append _ (id_in ev) (ids_in evs)
            (All-map_of _ _ (id_in ev) (λ id h. inr (left_in (id_in ev) later id h))
              (self_in (id_in ev)))
            (All-map_of _ _ (ids_in evs) (λ id h. widened (id_in ev) later id h) rest))
      | inr e ↦ rw e (
          All-append _ (id_in ev) (ids_in evs)
            (All-map_of _ _ (id_in ev) (λ id h. inl h) (answered-AllIn skip ev e)) rest)
    ]
  where
    widened :
        (xs ys : List (Option String)) (id : Option String)
        → IsCovered skip ys id
        → IsCovered skip (xs ++ ys) id
    widened xs ys id (inl h) = inl h
    widened xs ys id (inr h) = inr (right_in xs ys id h)

pub unanswered-covers :
    (events : List ChatEvent) (skip : List (Option String))
    → All
        (IsCovered skip (ids_in (unanswered_user_events events skip)))
        (ids_in (drop (behind_done 0 0 events) events))
unfolding unanswered_user_events
unanswered-covers events skip = filter-covers skip (drop (behind_done 0 0 events) events)

-- Ids that are new to a set are apart from it.
apart_one :
    (q : Option String) (rs : List (Option String))
    → All (λ r. same_id r q ≡ false) rs
    → has_event_id rs q ≡ false
apart_one q [] h = refl
apart_one q (r ∷ rs) h = rw (same_id_sym q r, h.0) (apart_one q rs h.1)

only_one : (b : Bool) → (if b then true else false) ≡ false → b ≡ false
only_one true h = h
only_one false h = refl

pub new-IsApart : (qs rs : List (Option String)) → AllNew qs rs → IsApart qs rs
new-IsApart [] rs h = tt
new-IsApart (q ∷ qs) rs h = (
  apart_one q rs (
      All-map_of _ _ rs (λ r new. only_one (same_id r q) (has_event_id-parts (q ∷ []) qs r new).0)
        h),
  new-IsApart qs rs (All-map_of _ _ rs (λ r new. (has_event_id-parts (q ∷ []) qs r new).1) h),
)

pub moved :
    (xs qs rs : List (Option String)) (id : Option String)
    → IsCovered (xs ++ qs) rs id
    → has_event_id ((qs ++ rs) ++ xs) id ≡ true
moved xs qs rs id (inr h) = left_in (qs ++ rs) xs id (right_in qs rs id h)
moved xs qs rs id (inl h) = elim (Bool-cases (has_event_id xs id)) [
  | inl e ↦ right_in (qs ++ rs) xs id e
  | inr e ↦
      left_in (qs ++ rs) xs id (left_in qs rs id (rw e at (sym (has_event_id-append xs qs id) ∙ h)))
]
