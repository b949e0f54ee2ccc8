-- ===== src/Recovery/Rounds.antt =====
-- src/core/init_master_recovery.py: the messages behind the last finished round, of a chat log that
-- is cut in two in any way.
use claude_code_manager.Base.{
  ℕ, zero, suc, ◌+◌, ◌-◌, ◌≤◌, ◌≡◌, refl, sym, ap, subst, ◌∙◌, Bool, true, false, Option, List, [],
  ◌∷◌, ◌++◌, String, if◌then◌else◌, Bool-cases, inl, inr, filter, drop, length, All, All-append,
  arith,
}
use claude_code_manager.Recovery.{
  ChatEvent, done_event, is_done, has_event_id, behind_done, is_unanswered, unanswered_user_events,
}
use claude_code_manager.Recovery.Replay.{id_in, ids_in}
use claude_code_manager.Recovery.Covers.{AllIn, self_in}

-- No round is finished by the events.
abbrev pub NoneDone : List ChatEvent → Type 0
NoneDone = All λ ev. is_done ev ≡ false

behind_done-append :
    (idx found : ℕ) (xs ys : List ChatEvent)
    → behind_done idx found (xs ++ ys) ≡ behind_done (idx + length xs) (behind_done idx found xs) ys
unfolding behind_done
behind_done-append idx found [] ys =
    let e : idx ≡ idx + 0 = omega arith in ap (λ i. behind_done i found ys) e
behind_done-append idx found (x ∷ xs) ys =
    let next = if is_done x then suc idx else found in
    let e : suc idx + length xs ≡ idx + suc (length xs) = omega arith in
    behind_done-append (suc idx) next xs ys
    ∙ ap (λ i. behind_done i (behind_done (suc idx) next xs) ys) e

behind_done-none :
    (idx found : ℕ) (ys : List ChatEvent) → NoneDone ys → behind_done idx found ys ≡ found
unfolding behind_done
behind_done-none idx found [] h = refl
behind_done-none idx found (y ∷ ys) h = rw (h.0) (behind_done-none (suc idx) found ys h.1)

behind_done-le :
    (idx found : ℕ) (xs : List ChatEvent) → found ≤ idx → behind_done idx found xs ≤ idx + length xs
unfolding behind_done
behind_done-le idx found [] h = omega (arith, h)
behind_done-le idx found (x ∷ xs) h = elim (Bool-cases (is_done x)) [
  | inl e ↦ rw e (omega (arith, behind_done-le (suc idx) (suc idx) xs (omega arith)))
  | inr e ↦ rw e (omega (arith, behind_done-le (suc idx) found xs (omega (arith, h))))
]

behind_done-ge :
    (idx found : ℕ) (xs : List ChatEvent) → found ≤ idx → found ≤ behind_done idx found xs
unfolding behind_done
behind_done-ge idx found [] h = omega arith
behind_done-ge idx found (x ∷ xs) h = elim (Bool-cases (is_done x)) [
  | inl e ↦ rw e (omega (arith, h, behind_done-ge (suc idx) (suc idx) xs (omega arith)))
  | inr e ↦ rw e (behind_done-ge (suc idx) found xs (omega (arith, h)))
]

drop_within :
    {A : Type 0} (n : ℕ) (xs ys : List A) → n ≤ length xs → drop n (xs ++ ys) ≡ drop n xs ++ ys
drop_within zero xs ys h = refl
drop_within (suc n) [] ys h = absurd (omega arith)
drop_within (suc n) (x ∷ xs) ys h = drop_within n xs ys (omega arith)

drop_beyond : {A : Type 0} (k : ℕ) (xs ys : List A) → drop (length xs + k) (xs ++ ys) ≡ drop k ys
drop_beyond k [] ys = let e : 0 + k ≡ k = omega arith in ap (λ n. drop n ys) e
drop_beyond k (x ∷ xs) ys =
    let e : suc (length xs) + k ≡ suc (length xs + k) = omega arith in
    ap (λ n. drop n (x ∷ xs ++ ys)) e ∙ drop_beyond k xs ys

All-behind : {A : Type 0} (P : A → Type 0) (xs ys : List A) → All P (xs ++ ys) → All P ys
All-behind P [] ys h = h
All-behind P (x ∷ xs) ys h = All-behind P xs ys h.1

All-front : {A : Type 0} (P : A → Type 0) (xs ys : List A) → All P (xs ++ ys) → All P xs
All-front P [] ys h = tt
All-front P (x ∷ xs) ys h = (h.0, All-front P xs ys h.1)

module _ (P : Option String → Type 0) where
  ids_in-behind : (xs ys : List ChatEvent) → All P (ids_in (xs ++ ys)) → All P (ids_in ys)
  ids_in-behind [] ys h = h
  ids_in-behind (x ∷ xs) ys h = ids_in-behind xs ys (All-behind P (id_in x) (ids_in (xs ++ ys)) h)

  ids_in-drop : (n : ℕ) (evs : List ChatEvent) → All P (ids_in evs) → All P (ids_in (drop n evs))
  ids_in-drop zero evs h = h
  ids_in-drop (suc n) [] h = tt
  ids_in-drop (suc n) (ev ∷ evs) h = ids_in-drop n evs (All-behind P (id_in ev) (ids_in evs) h)

  ids_in-filter :
      (p : ChatEvent → Bool) (evs : List ChatEvent)
      → All P (ids_in evs)
      → All P (ids_in (filter p evs))
  ids_in-filter p [] h = tt
  ids_in-filter p (ev ∷ evs) h =
      let rest = ids_in-filter p evs (All-behind P (id_in ev) (ids_in evs) h) in
      elim (Bool-cases (p ev)) [
        | inl e ↦ rw e (All-append P (id_in ev) _ (All-front P (id_in ev) (ids_in evs) h) rest)
        | inr e ↦ rw e rest
      ]

-- What stands behind no finished round is among what is left.
pub behind_done-after :
    (P : Option String → Type 0) (before after : List ChatEvent)
    → NoneDone after
    → let events = before ++ after in
      All P (ids_in (drop (behind_done 0 0 events) events)) → All P (ids_in after)
behind_done-after P before after open_round h =
    let n = behind_done 0 0 before in
    let e : behind_done 0 0 (before ++ after) ≡ n =
      behind_done-append 0 0 before after
      ∙ behind_done-none (0 + length before) n after open_round in
    let within : n ≤ length before = omega (arith, behind_done-le 0 0 before (omega arith)) in
    ids_in-behind P (drop n before) after
      (subst (λ evs. All P (ids_in evs)) (drop_within n before after within) (rw e at h))

-- The messages that are unanswered stand behind every finished round.
pub unanswered-AllIn :
    (before after : List ChatEvent) (skip : List (Option String))
    → AllIn (ids_in after) (ids_in (unanswered_user_events (before ++ done_event ∷ after) skip))
unfolding unanswered_user_events behind_done
unanswered-AllIn before after skip =
    let events = before ++ done_event ∷ after in
    let n : ℕ = behind_done 0 0 events in
    let k : ℕ = n - suc (length before) in
    let P = λ (id : Option String). has_event_id (ids_in after) id ≡ true in
    let at : n ≡ length before + suc k = omega (
      arith,
      behind_done-append 0 0 before (done_event ∷ after),
      behind_done-ge (suc (0 + length before)) (suc (0 + length before)) after (omega arith),
    ) in
    let left : drop n events ≡ drop k after =
      ap (λ i. drop i events) at ∙ drop_beyond (suc k) before (done_event ∷ after) in
    subst (λ evs. All P (ids_in (filter (is_unanswered skip) evs))) (sym left)
      (ids_in-filter P (is_unanswered skip) (drop k after)
        (ids_in-drop P k after (self_in (ids_in after))))

pub unanswered-known :
    (events : List ChatEvent) (skip : List (Option String))
    → AllIn (ids_in events) (ids_in (unanswered_user_events events skip))
unfolding unanswered_user_events
unanswered-known events skip =
    ids_in-filter (λ id. has_event_id (ids_in events) id ≡ true) (is_unanswered skip)
      (drop (behind_done 0 0 events) events)
      (ids_in-drop (λ id. has_event_id (ids_in events) id ≡ true) (behind_done 0 0 events) events
        (self_in (ids_in events)))
