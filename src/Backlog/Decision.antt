-- ===== src/Backlog/Decision.antt =====
-- src/core/backlog_loop.py: the decision of the loop.
use claude_code_manager.Base.{
  ℕ, ◌≤◌, ◌<◌, ◌≡◌, refl, sym, ◌∙◌, ◌≢◌, Bool, true, false, Option, some, List, [], ◌∷◌, All,
  Bool-cases, Option-cases, inl, inr, any, filter, length, ltb, ltb→lt, ltb_false→le, Text,
}
use claude_code_manager.Backlog.{
  Item, Config, Backlog, load_backlog, Action, revision, implement, stale_reset, scan, noop,
  generate, determine_action, handle_stale, is_stale, reset, has_status, approved, pending, failed,
  in_progress, is_active, check_revision, wants_revision, sort_by_rank, implement_or,
  generate_or_scan,
}
use claude_code_manager.Backlog.Ids.{next_id-fresh}
use claude_code_manager.Backlog.Choice.{
  IsFirstOfLeast, IsHead, sort-IsHead, IsFirstRevision, check_revision-IsRevision,
}

abbrev pub AllNot : (Item → Bool) → List Item → Type 0
AllNot p = All λ i. p i ≡ false

any-false : (p : Item → Bool) (items : List Item) → any p items ≡ false → AllNot p items
any-false p [] h = tt
any-false p (i ∷ items) h = elim (Bool-cases (p i)) [
  | inl e ↦ absurd (impossible (rw e at h))
  | inr e ↦ (e, any-false p items (rw e at h))
]
  where
    impossible : true ≡ false → ⊥
    impossible e = cc

filter_nil : (p : Item → Bool) (items : List Item) → filter p items ≡ [] → AllNot p items
filter_nil p [] h = tt
filter_nil p (i ∷ items) h = elim (Bool-cases (p i)) [
  | inl e ↦ absurd (impossible (rw e at h))
  | inr e ↦ (e, filter_nil p items (rw e at h))
]
  where
    impossible : {x : Item} {xs : List Item} → x ∷ xs ≡ [] → ⊥
    impossible e = cc

only_running :
    (items : List Item)
    → AllNot (has_status approved) items
    → any is_active items ≡ true
    → any (has_status in_progress) items ≡ true
only_running [] h e = e
only_running (i ∷ items) h e = elim (Bool-cases (has_status in_progress i)) [
  | inl p ↦ rw p refl
  | inr p ↦ rw p (only_running items h.1 (rw (h.0, p) at e))
]

module _ (parse : Text → Option ℕ) (now : ℕ) (cfg : Config) where
  -- No revision is wanted, and no item is stale.
  abbrev pub IsSettled : List Item → Type 0
  IsSettled items = AllNot wants_revision items × AllNot (is_stale parse now cfg) items

  -- Item by item: a stale item has failed, for the timeout, and any other is as it was.
  abbrev pub IsResetOf : List Item → List Item → Type 0
  IsResetOf [] [] = Unit
  IsResetOf [] (j ∷ after) = ⊥
  IsResetOf (i ∷ items) [] = ⊥
  IsResetOf (i ∷ items) (j ∷ after) =
      ((is_stale parse now cfg i ≡ true
          → j ≡ record i { status = failed; failed_reason = some cfg.stale_timeout })
        × (is_stale parse now cfg i ≡ false → j ≡ i))
      × IsResetOf items after

  -- What an action says of the items, and of the file after it.
  abbrev pub IsRight : Backlog → Action → Backlog → Type 0
  IsRight file (revision item) file' = IsFirstRevision item (load_backlog file) × (file' ≡ file)
  IsRight file stale_reset file' =
      AllNot wants_revision (load_backlog file)
      × (any (is_stale parse now cfg) (load_backlog file) ≡ true)
      × IsResetOf (load_backlog file) (load_backlog file')
  IsRight file (implement item) file' =
      IsSettled (load_backlog file)
      × IsFirstOfLeast item (filter (has_status approved) (load_backlog file))
      × (file' ≡ file)
  IsRight file (generate id) file' =
      IsSettled (load_backlog file)
      × AllNot is_active (load_backlog file)
      × (length (filter (has_status pending) (load_backlog file)) < cfg.max_pending)
      × All (λ i. i.id ≢ id) (load_backlog file)
      × (file' ≡ file)
  IsRight file scan file' =
      IsSettled (load_backlog file)
      × AllNot is_active (load_backlog file)
      × (cfg.max_pending ≤ length (filter (has_status pending) (load_backlog file)))
      × (file' ≡ file)
  IsRight file noop file' =
      IsSettled (load_backlog file)
      × AllNot (has_status approved) (load_backlog file)
      × (any (has_status in_progress) (load_backlog file) ≡ true)
      × (file' ≡ file)

  generate_or_scan-IsRight :
      (file : Backlog)
      → IsSettled (load_backlog file)
      → AllNot (has_status approved) (load_backlog file)
      → IsRight file (generate_or_scan (load_backlog file) cfg) file
  generate_or_scan-IsRight file settled none_approved =
      elim (Bool-cases (any is_active (load_backlog file))) [
        | inl active ↦
            rw active
              (settled, none_approved, only_running (load_backlog file) none_approved active, refl)
        | inr idle ↦
            elim (Bool-cases
              (ltb (length (filter (has_status pending) (load_backlog file))) cfg.max_pending)) [
                | inl room ↦
                    rw (idle, room)
                      (
                        settled,
                        any-false is_active (load_backlog file) idle,
                        ltb→lt _ _ room,
                        (next_id-fresh (load_backlog file) cfg.id_prefix).1,
                        refl,
                      )
                | inr full ↦
                    rw (idle, full)
                      (
                        settled,
                        any-false is_active (load_backlog file) idle,
                        ltb_false→le _ _ full,
                        refl,
                      )
              ]
      ]

  implement_or-IsRight :
      (file : Backlog) (sorted : List Item)
      → IsSettled (load_backlog file)
      → IsHead sorted (filter (has_status approved) (load_backlog file))
      → IsRight file (implement_or sorted (generate_or_scan (load_backlog file) cfg)) file
  implement_or-IsRight file [] settled h =
      generate_or_scan-IsRight file settled (filter_nil (has_status approved) (load_backlog file) h)
  implement_or-IsRight file (item ∷ rest) settled h = (settled, h, refl)

  reset-IsResetOf : (items : List Item) → IsResetOf items (reset parse now cfg items)
  unfolding reset
  reset-IsResetOf [] = tt
  reset-IsResetOf (i ∷ items) = elim (Bool-cases (is_stale parse now cfg i)) [
    | inl stale ↦ rw stale (((λ h. refl), λ h. absurd (impossible h)), reset-IsResetOf items)
    | inr kept ↦ rw kept (((λ h. absurd (impossible (sym h))), λ h. refl), reset-IsResetOf items)
  ]
    where
      impossible : true ≡ false → ⊥
      impossible e = cc

  -- The decision is the right one.
  pub determine_action-IsRight :
      (file : Backlog)
      → IsRight file (determine_action parse now cfg file).0 (determine_action parse now cfg file).1
  unfolding determine_action handle_stale load_backlog
  determine_action-IsRight file = elim (Option-cases (check_revision (load_backlog file))) [
    | inr (item, e) ↦
        let h = check_revision-IsRevision (load_backlog file) in
        rw (determine_action, e) (rw e at h, refl)
    | inl e ↦
        let h = check_revision-IsRevision (load_backlog file) in
        let unwanted : AllNot wants_revision (load_backlog file) = rw e at h in
        elim (Bool-cases (any (is_stale parse now cfg) (load_backlog file))) [
          | inl stale ↦
              rw (determine_action, e, stale) (unwanted, stale, reset-IsResetOf (load_backlog file))
          | inr fresh ↦
              rw (determine_action, e, fresh)
                (implement_or-IsRight file (sort_by_rank _) (unwanted, any-false _ _ fresh)
                  (sort-IsHead _))
        ]
  ]

  not_running :
      (i : Item)
      → is_stale parse now cfg
          (record i { status = failed; failed_reason = some cfg.stale_timeout })
        ≡ false
  unfolding is_stale
  not_running i = refl

  reset-any :
      (items after : List Item) → IsResetOf items after → any (is_stale parse now cfg) after ≡ false
  reset-any [] [] h = refl
  reset-any [] (j ∷ after) h = absurd h
  reset-any (i ∷ items) [] h = absurd h
  reset-any (i ∷ items) (j ∷ after) h = elim (Bool-cases (is_stale parse now cfg i)) [
    | inl stale ↦ rw (h.0.0 stale) (rw (not_running i) (reset-any items after h.1))
    | inr kept ↦ rw (h.0.1 kept) (rw kept (reset-any items after h.1))
  ]

  -- After a reset of stale items, a further call at the same time does something else.
  pub determine_action-reset_once :
      (file : Backlog)
      → (determine_action parse now cfg file).0 ≡ stale_reset
      → (determine_action parse now cfg (determine_action parse now cfg file).1).0 ≢ stale_reset
  determine_action-reset_once file first second =
      let file' = (determine_action parse now cfg file).1 in
      let once = rw first at (determine_action-IsRight file) in
      let again = rw second at (determine_action-IsRight file') in
      impossible (sym again.1 ∙ reset-any (load_backlog file) (load_backlog file') once.2)
    where
      impossible : true ≡ false → ⊥
      impossible e = cc
