-- ===== src/Messages/Borders.antt =====
-- src/core/message_events.py: the runs on the two sides of an index do not see each other.
use claude_code_manager.Base.{
  ℕ, ◌≤◌, ◌<◌, ◌≡◌, refl, Bool, true, false, ◌&&◌, Option, none, some, List, [], ◌∷◌, ◌++◌,
  append-nil, nat_eq, ltb, if◌then◌else◌, All, All-append, arith, Bool-cases, ◌⊎◌, inl, inr,
  All-filter, filter-append,
}
use claude_code_manager.Messages.StableOrder.{
  Indexed, is_run_start, is_run_end, is_deferrable, start_after, completed, intervals,
  lies_deferred, deferred_in, Deferrals, entry_at, deferred_by_end, has_index, is_deferred,
  deferred_at, kept, project,
}

past : (start end idx : ℕ) (d : Bool) → end ≤ idx → (ltb start idx && ltb idx end && d) ≡ false
past start end idx d h = ground arith

before : (start end idx : ℕ) (d : Bool) → idx ≤ start → (ltb start idx && ltb idx end && d) ≡ false
before start end idx d h = ground arith

unequal : (a c : ℕ) → (a < c) ⊎ (c < a) → nat_eq a c ≡ false
unequal a c h = ground arith

or_false : (x : Bool) → (if x then true else false) ≡ x
or_false true = refl
or_false false = refl

is_deferred-append :
    (idx : ℕ) (ds ds' : Deferrals)
    → is_deferred idx (ds ++ ds') ≡ (if is_deferred idx ds then true else is_deferred idx ds')
unfolding is_deferred
is_deferred-append idx [] ds' = refl
is_deferred-append idx (d ∷ ds) ds' = elim (Bool-cases (has_index idx d.1)) [
  | inl p ↦ rw p refl
  | inr p ↦ rw p (is_deferred-append idx ds ds')
]

module _ (b : ℕ) where
  abbrev pub Below : List Indexed → Type 0
  Below = All λ e. e.0 < b

  abbrev pub Above : List Indexed → Type 0
  Above = All λ e. b ≤ e.0

  -- Where an interval starts that is open.
  abbrev pub StartsAbove : Option ℕ → Type 0
  StartsAbove none = Unit
  StartsAbove (some s) = b ≤ s

  pub intervals-Below :
      (start : Option ℕ) (es : List Indexed) → Below es → All (λ i. i.1 < b) (intervals start es)
  unfolding intervals
  intervals-Below start [] h = tt
  intervals-Below start (e ∷ es) h =
      All-append _ (completed start e) _ (go start) (intervals-Below (start_after start e) es h.1)
    where
      go : (start : Option ℕ) → All (λ i. i.1 < b) (completed start e)
      go none = tt
      go (some s) = elim (Bool-cases (is_run_start e.1)) [
        | inl p ↦ rw p tt
        | inr p ↦ elim (Bool-cases (is_run_end e.1)) [
          | inl q ↦ rw (p, q) (h.0, tt)
          | inr q ↦ rw (p, q) tt
        ]
      ]

  pub intervals-Above :
      (start : Option ℕ) (es : List Indexed)
      → StartsAbove start
      → Above es
      → All (λ i. (b ≤ i.0) × (b ≤ i.1)) (intervals start es)
  unfolding intervals
  intervals-Above start [] hs h = tt
  intervals-Above start (e ∷ es) hs h =
      All-append _ (completed start e) _ (go start hs)
        (intervals-Above (start_after start e) es next h.1)
    where
      next : StartsAbove (start_after start e)
      next = elim (Bool-cases (is_run_start e.1)) [
        | inl p ↦ rw p h.0
        | inr p ↦ elim (Bool-cases (is_run_end e.1)) [ inl q ↦ rw (p, q) tt | inr q ↦ rw (p, q) hs ]
      ]

      go :
          (start : Option ℕ)
          → StartsAbove start
          → All (λ i. (b ≤ i.0) × (b ≤ i.1)) (completed start e)
      go none hs = tt
      go (some s) hs = elim (Bool-cases (is_run_start e.1)) [
        | inl p ↦ rw p tt
        | inr p ↦ elim (Bool-cases (is_run_end e.1)) [
          | inl q ↦ rw (p, q) ((hs, h.0), tt)
          | inr q ↦ rw (p, q) tt
        ]
      ]

  -- An interval below the border defers nothing above it, and the other way round.
  deferred_in-Above : (i : ℕ × ℕ) (es : List Indexed) → i.1 < b → Above es → deferred_in i es ≡ []
  deferred_in-Above i [] hi h = refl
  deferred_in-Above i (e ∷ es) hi h =
      rw (past i.0 i.1 e.0 (is_deferrable e.1) (omega (arith, hi, h.0)))
        (deferred_in-Above i es hi h.1)

  deferred_in-Below : (i : ℕ × ℕ) (es : List Indexed) → b ≤ i.0 → Below es → deferred_in i es ≡ []
  deferred_in-Below i [] hi h = refl
  deferred_in-Below i (e ∷ es) hi h =
      rw (before i.0 i.1 e.0 (is_deferrable e.1) (omega (arith, hi, h.0)))
        (deferred_in-Below i es hi h.1)

  abbrev pub DeferralsBelow : Deferrals → Type 0
  DeferralsBelow = All λ d. (d.0 < b) × Below d.1

  abbrev pub DeferralsAbove : Deferrals → Type 0
  DeferralsAbove = All λ d. (b ≤ d.0) × Above d.1

  entry_at-All :
      (P : ℕ × List Indexed → Type 0) (end : ℕ) (es : List Indexed)
      → P (end, es)
      → All P (entry_at end es)
  entry_at-All P end [] h = tt
  entry_at-All P end (e ∷ es) h = (h, tt)

  pub deferred_by_end-Below :
      (is : List (ℕ × ℕ)) (es : List Indexed)
      → All (λ i. i.1 < b) is
      → Below es
      → DeferralsBelow (deferred_by_end is es)
  unfolding deferred_by_end
  deferred_by_end-Below [] es hi h = tt
  deferred_by_end-Below (i ∷ is) es hi h =
      All-append _ (entry_at i.1 (deferred_in i es)) _
        (entry_at-All _ i.1 (deferred_in i es)
          (hi.0, All-filter (λ e. e.0 < b) (lies_deferred i) es h))
        (deferred_by_end-Below is es hi.1 h)

  pub deferred_by_end-Above :
      (is : List (ℕ × ℕ)) (es : List Indexed)
      → All (λ i. (b ≤ i.0) × (b ≤ i.1)) is
      → Above es
      → DeferralsAbove (deferred_by_end is es)
  unfolding deferred_by_end
  deferred_by_end-Above [] es hi h = tt
  deferred_by_end-Above (i ∷ is) es hi h =
      All-append _ (entry_at i.1 (deferred_in i es)) _
        (entry_at-All _ i.1 (deferred_in i es)
          (hi.0.1, All-filter (λ e. b ≤ e.0) (lies_deferred i) es h))
        (deferred_by_end-Above is es hi.1 h)

  pub deferred_by_end-left :
      (is : List (ℕ × ℕ)) (es es' : List Indexed)
      → All (λ i. i.1 < b) is
      → Above es'
      → deferred_by_end is (es ++ es') ≡ deferred_by_end is es
  unfolding deferred_by_end
  deferred_by_end-left [] es es' hi h = refl
  deferred_by_end-left (i ∷ is) es es' hi h =
      rw
        (
          filter-append (lies_deferred i) es es',
          deferred_in-Above i es' hi.0 h,
          append-nil (deferred_in i es),
          deferred_by_end-left is es es' hi.1 h,
        )
        refl

  pub deferred_by_end-right :
      (is : List (ℕ × ℕ)) (es es' : List Indexed)
      → All (λ i. (b ≤ i.0) × (b ≤ i.1)) is
      → Below es
      → deferred_by_end is (es ++ es') ≡ deferred_by_end is es'
  unfolding deferred_by_end
  deferred_by_end-right [] es es' hi h = refl
  deferred_by_end-right (i ∷ is) es es' hi h =
      rw
        (
          filter-append (lies_deferred i) es es',
          deferred_in-Below i es hi.0.0 h,
          deferred_by_end-right is es es' hi.1 h,
        )
        refl

  has_index-Above : (idx : ℕ) (es : List Indexed) → idx < b → Above es → has_index idx es ≡ false
  has_index-Above idx [] hi h = refl
  has_index-Above idx (e ∷ es) hi h =
      rw (unequal idx e.0 (inl (omega (arith, hi, h.0)))) (has_index-Above idx es hi h.1)

  has_index-Below : (idx : ℕ) (es : List Indexed) → b ≤ idx → Below es → has_index idx es ≡ false
  has_index-Below idx [] hi h = refl
  has_index-Below idx (e ∷ es) hi h =
      rw (unequal idx e.0 (inr (omega (arith, hi, h.0)))) (has_index-Below idx es hi h.1)

  is_deferred-Above :
      (idx : ℕ) (ds : Deferrals) → idx < b → DeferralsAbove ds → is_deferred idx ds ≡ false
  unfolding is_deferred
  is_deferred-Above idx [] hi h = refl
  is_deferred-Above idx (d ∷ ds) hi h =
      rw (has_index-Above idx d.1 hi h.0.1) (is_deferred-Above idx ds hi h.1)

  is_deferred-Below :
      (idx : ℕ) (ds : Deferrals) → b ≤ idx → DeferralsBelow ds → is_deferred idx ds ≡ false
  unfolding is_deferred
  is_deferred-Below idx [] hi h = refl
  is_deferred-Below idx (d ∷ ds) hi h =
      rw (has_index-Below idx d.1 hi h.0.1) (is_deferred-Below idx ds hi h.1)

  deferred_at-Above :
      (idx : ℕ) (ds : Deferrals) → idx < b → DeferralsAbove ds → deferred_at idx ds ≡ []
  unfolding deferred_at
  deferred_at-Above idx [] hi h = refl
  deferred_at-Above idx (d ∷ ds) hi h =
      rw (unequal idx d.0 (inl (omega (arith, hi, h.0.0)))) (deferred_at-Above idx ds hi h.1)

  -- The deferrals above the border are not seen below it, and the other way round.
  kept-left :
      (ds ds' : Deferrals) (e : Indexed)
      → e.0 < b
      → DeferralsAbove ds'
      → kept (ds ++ ds') e ≡ kept ds e
  kept-left ds ds' e he h =
      rw
        (
          is_deferred-append e.0 ds ds',
          is_deferred-Above e.0 ds' he h,
          or_false (is_deferred e.0 ds),
        )
        refl

  deferred_at-left :
      (idx : ℕ) (ds ds' : Deferrals)
      → idx < b
      → DeferralsAbove ds'
      → deferred_at idx (ds ++ ds') ≡ deferred_at idx ds
  unfolding deferred_at
  deferred_at-left idx [] ds' hi h = deferred_at-Above idx ds' hi h
  deferred_at-left idx (d ∷ ds) ds' hi h = elim (Bool-cases (nat_eq idx d.0)) [
    | inl p ↦ rw p refl
    | inr p ↦ rw p (deferred_at-left idx ds ds' hi h)
  ]

  deferred_at-right :
      (idx : ℕ) (ds ds' : Deferrals)
      → b ≤ idx
      → DeferralsBelow ds
      → deferred_at idx (ds ++ ds') ≡ deferred_at idx ds'
  unfolding deferred_at
  deferred_at-right idx [] ds' hi h = refl
  deferred_at-right idx (d ∷ ds) ds' hi h =
      rw (unequal idx d.0 (inr (omega (arith, hi, h.0.0)))) (deferred_at-right idx ds ds' hi h.1)

  pub project-left :
      (ds ds' : Deferrals) (es : List Indexed)
      → Below es
      → DeferralsAbove ds'
      → project (ds ++ ds') es ≡ project ds es
  unfolding project
  project-left ds ds' [] he h = refl
  project-left ds ds' (e ∷ es) he h =
      rw
        (
          kept-left ds ds' e he.0 h,
          deferred_at-left e.0 ds ds' he.0 h,
          project-left ds ds' es he.1 h,
        )
        refl

  pub project-right :
      (ds ds' : Deferrals) (es : List Indexed)
      → Above es
      → DeferralsBelow ds
      → project (ds ++ ds') es ≡ project ds' es
  unfolding project
  project-right ds ds' [] he h = refl
  project-right ds ds' (e ∷ es) he h =
      rw
        (
          is_deferred-append e.0 ds ds',
          is_deferred-Below e.0 ds he.0 h,
          deferred_at-right e.0 ds ds' he.0 h,
          project-right ds ds' es he.1 h,
        )
        refl
