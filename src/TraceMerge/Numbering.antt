-- ===== src/TraceMerge/Numbering.antt =====
-- The numbers of the IdSequencer over a merge (src/core/trace_merge.py).
use claude_code_manager.Base.{
  ℕ, suc, ◌≤◌, ◌<◌, ◌≡◌, refl, ap, ◌∙◌, Option, none, some, List, [], ◌∷◌, if◌then◌else◌, Text,
  Text_eq, text_eq_iff, ◌==◌, arith, Bool-cases, Option-cases, inl, inr, All, All-map_of,
}
use claude_code_manager.Memo.{lookup}
use claude_code_manager.Memo.Entries.{lookup-assign, lookup-assign_other, All-assign, lookup_of_All}
use claude_code_manager.TraceMerge.{
  IdSequencer, new_sequencer, start_trace, dense_id, dense_id_from,
}

-- What a merge asks of a sequencer.
pub data Call : Type 0 where
  starts : Call
  numbers : Text → Call

-- After calls of which the newest is the first.
unfoldable pub sequencer_after : List Call → IdSequencer
sequencer_after [] = new_sequencer
sequencer_after (starts ∷ past) = start_trace (sequencer_after past)
sequencer_after (numbers key ∷ past) = (dense_id key (sequencer_after past)).1

-- The numbers that were given.
unfoldable pub given_numbers : List Call → List ℕ
given_numbers [] = []
given_numbers (starts ∷ past) = given_numbers past
given_numbers (numbers key ∷ past) = (dense_id key (sequencer_after past)).0 ∷ given_numbers past

-- The number that a key got last, in the trace that is merged now.
unfoldable pub numbered_as : Text → List Call → Option ℕ
numbered_as key [] = none
numbered_as key (starts ∷ past) = none
numbered_as key (numbers k ∷ past) =
    if k == key then some (dense_id k (sequencer_after past)).0 else numbered_as key past

dense_id_hit :
    (k : Text) (seq : IdSequencer) (m : ℕ) → lookup k seq.seen ≡ some m → dense_id k seq ≡ (m, seq)
unfolding dense_id
dense_id_hit k seq m hit = ap (dense_id_from k seq) hit

dense_id_miss :
    (k : Text) (seq : IdSequencer)
    → lookup k seq.seen ≡ none
    → dense_id k seq ≡ dense_id_from k seq none
unfolding dense_id
dense_id_miss k seq miss = ap (dense_id_from k seq) miss

lookup-dense_id :
    (k key : Text) (seq : IdSequencer)
    → lookup key (dense_id k seq).1.seen
      ≡ (if k == key then some (dense_id k seq).0 else lookup key seq.seen)
lookup-dense_id k key seq = elim (Option-cases (lookup k seq.seen)) [
  | inl miss ↦ rw (dense_id_miss k seq miss) (elim (Bool-cases (k == key)) [
    | inl same ↦
        let e : k ≡ key = (text_eq_iff k key).0 same in
        rw same (rw e (lookup-assign key seq.next_id seq.seen))
    | inr other ↦ rw other (lookup-assign_other k key seq.next_id seq.seen other)
  ])
  | inr (m, hit) ↦ rw (dense_id_hit k seq m hit) (elim (Bool-cases (k == key)) [
    | inl same ↦ let e : k ≡ key = (text_eq_iff k key).0 same in rw same (rw e at hit)
    | inr other ↦ rw other refl
  ])
]

lookup-numbered :
    (key : Text) (past : List Call) → lookup key (sequencer_after past).seen ≡ numbered_as key past
unfolding sequencer_after numbered_as lookup start_trace
lookup-numbered key [] = refl
lookup-numbered key (starts ∷ past) = refl
lookup-numbered key (numbers k ∷ past) =
    let answer = (dense_id k (sequencer_after past)).0 in
    lookup-dense_id k key (sequencer_after past)
    ∙ ap (λ o. if k == key then some answer else o) (lookup-numbered key past)

-- Every number that is kept lies below the next one.
abbrev IsBelow : IdSequencer → Type 0
IsBelow seq = All (λ x. x.1 < seq.next_id) seq.seen

dense_id-IsBelow :
    (k : Text) (seq : IdSequencer)
    → IsBelow seq
    → IsBelow (dense_id k seq).1
      × ((dense_id k seq).0 < (dense_id k seq).1.next_id)
      × (seq.next_id ≤ (dense_id k seq).1.next_id)
dense_id-IsBelow k seq h = elim (Option-cases (lookup k seq.seen)) [
  | inl miss ↦ rw (dense_id_miss k seq miss) (
    All-assign (λ x. x.1 < suc seq.next_id) k seq.next_id seq.seen
        (All-map_of _ _ seq.seen (λ x lt. omega (arith, lt)) h) (omega arith),
    omega arith,
    omega arith,
  )
  | inr (m, hit) ↦
      let below = lookup_of_All (λ x. x.1 < seq.next_id) k m seq.seen h hit in
      rw (dense_id_hit k seq m hit) (h, below, omega arith)
]

sequencer_after-IsBelow :
    (past : List Call)
    → IsBelow (sequencer_after past)
      × All (λ n. n < (sequencer_after past).next_id) (given_numbers past)
unfolding sequencer_after given_numbers start_trace
sequencer_after-IsBelow [] = (tt, tt)
sequencer_after-IsBelow (starts ∷ past) = (tt, (sequencer_after-IsBelow past).1)
sequencer_after-IsBelow (numbers k ∷ past) =
    let (below, given) = sequencer_after-IsBelow past in
    let (kept, answered, grown) = dense_id-IsBelow k (sequencer_after past) below in
    (kept, (answered, All-map_of _ _ (given_numbers past) (λ n lt. omega (arith, lt, grown)) given))

-- Over all the traces of a merge: a key that got a number in the trace that is merged gets it again,
-- and any other key gets one that is above every number given before, in whatever trace.
pub dense_id-fresh :
    (key : Text) (past : List Call)
    → let answer = (dense_id key (sequencer_after past)).0 in
      ((n : ℕ) → numbered_as key past ≡ some n → answer ≡ n)
      × (numbered_as key past ≡ none → All (λ n. n < answer) (given_numbers past))
dense_id-fresh key past =
    let found = lookup-numbered key past in
    let given = (sequencer_after-IsBelow past).1 in
    let seq = sequencer_after past in
    (
      λ n h. rw (dense_id_hit key seq n (found ∙ h)) refl,
      λ h. rw (dense_id_miss key seq (found ∙ h)) given,
    )
