-- ===== src/Backlog/Choice.antt =====
-- src/core/backlog_loop.py: the item that is chosen.
use claude_code_manager.Base.{
  ℕ, ◌≤◌, ◌<◌, ◌≡◌, refl, ap, true, false, Option, none, some, List, [], ◌∷◌, ◌++◌, All, All-append,
  All-map_of, leb, leb→le, Bool-cases, inl, inr, arith,
}
use claude_code_manager.Backlog.{
  Item, priority_rank, insert_by_rank, sort_by_rank, check_revision, wants_revision,
}

-- `item` is the first of the items that have the least rank.
abbrev pub IsFirstOfLeast : Item → List Item → Type 0
IsFirstOfLeast item items =
    (before : List Item) × (after : List Item) × (items ≡ before ++ item ∷ after)
    × All (λ i. priority_rank item < priority_rank i) before
    × All (λ i. priority_rank item ≤ priority_rank i) after

-- What the sort puts first, where there is something.
abbrev pub IsHead : List Item → List Item → Type 0
IsHead [] items = items ≡ []
IsHead (item ∷ rest) items = IsFirstOfLeast item items

below : (a b : ℕ) → leb a b ≡ false → b < a
below a b h = ground (arith, h)

behind :
    (item next : Item) (items before after : List Item)
    → items ≡ before ++ next ∷ after
    → priority_rank item ≤ priority_rank next
    → All (λ i. priority_rank next < priority_rank i) before
    → All (λ i. priority_rank next ≤ priority_rank i) after
    → All (λ i. priority_rank item ≤ priority_rank i) items
behind item next items before after e le above from = rw e (
    All-append _ before _ (All-map_of _ _ before (λ i (lt : _ < _). omega (arith, le, lt)) above)
      (le, All-map_of _ _ after (λ i (ge : _ ≤ _). omega (arith, le, ge)) from))

insert-IsHead :
    (item : Item) (sorted items : List Item)
    → IsHead sorted items
    → IsHead (insert_by_rank item sorted) (item ∷ items)
unfolding insert_by_rank
insert-IsHead item [] items h = rw h ([], [], refl, tt, tt)
insert-IsHead item (next ∷ rest) items (before, after, e, above, from) =
    elim (Bool-cases (leb (priority_rank item) (priority_rank next))) [
      | inl le ↦
          rw le
            ([], items, refl, tt, behind item next items before after e (leb→le _ _ le) above from)
      | inr gt ↦ rw gt (item ∷ before, after, ap (◌∷◌ item) e, (below _ _ gt, above), from)
    ]

pub sort-IsHead : (items : List Item) → IsHead (sort_by_rank items) items
unfolding sort_by_rank
sort-IsHead [] = refl
sort-IsHead (item ∷ items) = insert-IsHead item (sort_by_rank items) items (sort-IsHead items)

-- The first item that wants a revision.
abbrev pub IsFirstRevision : Item → List Item → Type 0
IsFirstRevision item items =
    (before : List Item) × (after : List Item) × (items ≡ before ++ item ∷ after)
    × All (λ i. wants_revision i ≡ false) before
    × (wants_revision item ≡ true)

abbrev pub IsRevision : Option Item → List Item → Type 0
IsRevision none items = All (λ i. wants_revision i ≡ false) items
IsRevision (some item) items = IsFirstRevision item items

pub check_revision-IsRevision : (items : List Item) → IsRevision (check_revision items) items
unfolding check_revision
check_revision-IsRevision [] = tt
check_revision-IsRevision (item ∷ items) = elim (Bool-cases (wants_revision item)) [
  | inl w ↦ rw w ([], items, refl, tt, w)
  | inr w ↦ rw w (later item items (check_revision items) w (check_revision-IsRevision items))
]
  where
    later :
        (item : Item) (items : List Item) (o : Option Item)
        → wants_revision item ≡ false
        → IsRevision o items
        → IsRevision o (item ∷ items)
    later item items none w h = (w, h)
    later item items (some i) w (before, after, e, none_before, wants) =
        (item ∷ before, after, ap (◌∷◌ item) e, (w, none_before), wants)
