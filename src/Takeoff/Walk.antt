-- ===== src/Takeoff/Walk.antt =====
-- The backward walk of src/core/takeoff_gate.py: how it splits over an append, and what it finds.
use claude_code_manager.Base.{
  not, ℕ, ◌≡◌, refl, sym, ap, ◌∙◌, Bool, true, false, ◌&&◌, ◌||◌, Option, none, some, List, [], ◌∷◌,
  ◌++◌, reverse, reverse-append, occurs_in, if◌then◌else◌, arith,
}
use claude_code_manager.Takeoff.{
  Event, Runtime, takeoff_phrase, is_real_user_message, Answers, no_answers,
  normalize_takeoff_content, stamp, visit, walk, backward_user_answers,
}

-- The answers over a list from those over its older and its newer part.
abbrev pub combine : Answers → Answers → Answers
combine older newer = record {
  has_takeoff = if newer.seen_user then newer.has_takeoff else older.has_takeoff;
  pre_takeoff_at = elim newer.pre_takeoff_at [ some t ↦ some t | none ↦ older.pre_takeoff_at ];
  seen_user = newer.seen_user || older.seen_user;
}

-- What the loop means, read forwards: the last real user message, and the last stamp.
unfoldable pub last_user : List Event → Option Event
last_user [] = none
last_user (e ∷ es) = elim (last_user es) [
  | some u ↦ some u
  | none ↦ if is_real_user_message e then some e else none
]

unfoldable pub is_some {ℓ} : {A : Type ℓ} → Option A → Bool
is_some none = false
is_some (some a) = true

-- Nothing is answered before a real user message is seen.
abbrev IsFair : Answers → Type 0
IsFair a = (a.has_takeoff && not a.seen_user) ≡ false

module _ (rt : Runtime) where
  visit-combine :
      (a : Answers) (e : Event) → IsFair a → visit rt a e ≡ combine (visit rt no_answers e) a
  unfolding visit
  visit-combine a e fair = ground arith

  visit-IsFair : (a : Answers) (e : Event) → IsFair a → IsFair (visit rt a e)
  unfolding visit
  visit-IsFair a e fair = ground arith

  combine_assoc : (a b c : Answers) → combine a (combine b c) ≡ combine (combine a b) c
  combine_assoc a b c = ground arith

  combine_none : (a : Answers) → IsFair a → combine no_answers a ≡ a
  combine_none a fair = ground arith

  walk-combine :
      (a : Answers) (es : List Event) → IsFair a → walk rt a es ≡ combine (walk rt no_answers es) a
  unfolding walk
  walk-combine a [] fair = sym (combine_none a fair)
  walk-combine a (e ∷ es) fair =
      walk-combine (visit rt a e) es (visit-IsFair a e fair)
      ∙ ap (combine (walk rt no_answers es)) (visit-combine a e fair)
      ∙ combine_assoc (walk rt no_answers es) (visit rt no_answers e) a
      ∙ ap (λ b. combine b a)
          (sym (walk-combine (visit rt no_answers e) es (visit-IsFair no_answers e refl)))

  walk-IsFair : (a : Answers) (es : List Event) → IsFair a → IsFair (walk rt a es)
  unfolding walk
  walk-IsFair a [] fair = fair
  walk-IsFair a (e ∷ es) fair = walk-IsFair (visit rt a e) es (visit-IsFair a e fair)

  walk-append :
      (a : Answers) (xs ys : List Event) → walk rt a (xs ++ ys) ≡ walk rt (walk rt a xs) ys
  unfolding walk
  walk-append a [] ys = refl
  walk-append a (x ∷ xs) ys = walk-append (visit rt a x) xs ys

  -- The answers over a list that grew are the old ones, but for what the appended part settles:
  -- the phrase of its last real user message, and its last stamp.
  pub backward_user_answers-append :
      (xs ys : List Event)
      → backward_user_answers rt (xs ++ ys)
        ≡ combine (backward_user_answers rt xs) (backward_user_answers rt ys)
  unfolding backward_user_answers
  backward_user_answers-append xs ys =
      ap (walk rt no_answers) (reverse-append xs ys)
      ∙ walk-append no_answers (reverse ys) (reverse xs)
      ∙ walk-combine (walk rt no_answers (reverse ys)) (reverse xs)
          (walk-IsFair no_answers (reverse ys) refl)

  unfoldable pub last_stamp : List Event → Option ℕ
  last_stamp [] = none
  last_stamp (e ∷ es) = elim (last_stamp es) [
    | some t ↦ some t
    | none ↦ if is_real_user_message e then stamp rt e else none
  ]

  unfoldable pub says_takeoff : Option Event → Bool
  says_takeoff none = false
  says_takeoff (some u) = occurs_in takeoff_phrase (normalize_takeoff_content rt u.content)

  abbrev pub meaning : List Event → Answers
  meaning es = record {
    has_takeoff = says_takeoff (last_user es);
    pre_takeoff_at = last_stamp es;
    seen_user = is_some (last_user es);
  }

  single : (e : Event) → backward_user_answers rt (e ∷ []) ≡ meaning (e ∷ [])
  unfolding backward_user_answers walk visit last_user last_stamp says_takeoff is_some
  single e = ground arith

  meaning-cons :
      (e : Event) (es : List Event) → combine (meaning (e ∷ [])) (meaning es) ≡ meaning (e ∷ es)
  unfolding last_user last_stamp says_takeoff is_some
  meaning-cons e es = ground arith

  -- The walk answers whether the last real user message carries the takeoff phrase, which is the
  -- last parseable stamp of a real user message with the pre-takeoff phrase, and whether the list
  -- has a real user message.
  pub backward_user_answers-eq : (es : List Event) → backward_user_answers rt es ≡ meaning es
  backward_user_answers-eq [] =
      unfold backward_user_answers walk last_user last_stamp says_takeoff is_some in refl
  backward_user_answers-eq (e ∷ es) =
      backward_user_answers-append (e ∷ []) es
      ∙ ap (combine (backward_user_answers rt (e ∷ []))) (backward_user_answers-eq es)
      ∙ ap (λ a. combine a (meaning es)) (single e)
      ∙ meaning-cons e es
