-- ===== src/Messages/Shifts.antt =====
-- src/core/message_events.py: the stable order does not depend on the index of the first event.
use claude_code_manager.Base.{
  ℕ, suc, ◌+◌, ◌≡◌, refl, ap, Option, none, some, List, [], ◌∷◌, ◌++◌, nat_eq, ltb, map, map-append,
  arith, Bool-cases, inl, inr,
}
use claude_code_manager.Messages.Aggregator.{Event}
use claude_code_manager.Messages.StableOrder.{
  Indexed, enumerate, is_run_start, is_run_end, start_after, completed, intervals, lies_deferred,
  deferred_in, Deferrals, entry_at, deferred_by_end, has_index, is_deferred, deferred_at, kept,
  project, project_indexed,
}

ltb-add : (k a c : ℕ) → ltb (k + a) (k + c) ≡ ltb a c
ltb-add k a c = ground arith

eq-add : (k a c : ℕ) → nat_eq (k + a) (k + c) ≡ nat_eq a c
eq-add k a c = ground arith

-- The index `k` places on.
abbrev pub shift : ℕ → Indexed → Indexed
shift k (idx, ev) = (k + idx, ev)

abbrev shift_start : ℕ → Option ℕ → Option ℕ
shift_start k none = none
shift_start k (some s) = some (k + s)

abbrev shift_interval : ℕ → ℕ × ℕ → ℕ × ℕ
shift_interval k (start, end) = (k + start, k + end)

abbrev shift_entry : ℕ → ℕ × List Indexed → ℕ × List Indexed
shift_entry k (end, es) = (k + end, map (shift k) es)

pub enumerate-shift :
    (k i j : ℕ) (evs : List Event) → j ≡ k + i → enumerate j evs ≡ map (shift k) (enumerate i evs)
enumerate-shift k i j [] h = refl
enumerate-shift k i j (ev ∷ evs) h =
    rw h (ap (◌∷◌ (k + i, ev)) (enumerate-shift k (suc i) (suc (k + i)) evs (omega arith)))

module _ (k : ℕ) where
  start_after-shift :
      (st : Option ℕ) (e : Indexed)
      → start_after (shift_start k st) (shift k e) ≡ shift_start k (start_after st e)
  start_after-shift st e = elim (Bool-cases (is_run_start e.1)) [
    | inl p ↦ rw p refl
    | inr p ↦ elim (Bool-cases (is_run_end e.1)) [ inl q ↦ rw (p, q) refl | inr q ↦ rw (p, q) refl ]
  ]

  completed-shift :
      (st : Option ℕ) (e : Indexed)
      → completed (shift_start k st) (shift k e) ≡ map (shift_interval k) (completed st e)
  completed-shift none e = refl
  completed-shift (some s) e = elim (Bool-cases (is_run_start e.1)) [
    | inl p ↦ rw p refl
    | inr p ↦ elim (Bool-cases (is_run_end e.1)) [ inl q ↦ rw (p, q) refl | inr q ↦ rw (p, q) refl ]
  ]

  intervals-shift :
      (st : Option ℕ) (es : List Indexed)
      → intervals (shift_start k st) (map (shift k) es) ≡ map (shift_interval k) (intervals st es)
  unfolding intervals
  intervals-shift st [] = refl
  intervals-shift st (e ∷ es) =
      rw
        (
          completed-shift st e,
          start_after-shift st e,
          intervals-shift (start_after st e) es,
          map-append (shift_interval k) (completed st e) (intervals (start_after st e) es),
        )
        refl

  deferred_in-shift :
      (i : ℕ × ℕ) (es : List Indexed)
      → deferred_in (shift_interval k i) (map (shift k) es) ≡ map (shift k) (deferred_in i es)
  deferred_in-shift i [] = refl
  deferred_in-shift i (e ∷ es) = elim (Bool-cases (lies_deferred i e)) [
    | inl p ↦
        rw (ltb-add k i.0 e.0, ltb-add k e.0 i.1, p) (ap (◌∷◌ (shift k e)) (deferred_in-shift i es))
    | inr p ↦ rw (ltb-add k i.0 e.0, ltb-add k e.0 i.1, p) (deferred_in-shift i es)
  ]

  entry_at-shift :
      (end : ℕ) (es : List Indexed)
      → entry_at (k + end) (map (shift k) es) ≡ map (shift_entry k) (entry_at end es)
  entry_at-shift end [] = refl
  entry_at-shift end (e ∷ es) = refl

  deferred_by_end-shift :
      (is : List (ℕ × ℕ)) (es : List Indexed)
      → deferred_by_end (map (shift_interval k) is) (map (shift k) es)
        ≡ map (shift_entry k) (deferred_by_end is es)
  unfolding deferred_by_end
  deferred_by_end-shift [] es = refl
  deferred_by_end-shift (i ∷ is) es =
      rw
        (
          deferred_in-shift i es,
          entry_at-shift i.1 (deferred_in i es),
          deferred_by_end-shift is es,
          map-append (shift_entry k) (entry_at i.1 (deferred_in i es)) (deferred_by_end is es),
        )
        refl

  has_index-shift :
      (idx : ℕ) (es : List Indexed) → has_index (k + idx) (map (shift k) es) ≡ has_index idx es
  has_index-shift idx [] = refl
  has_index-shift idx (e ∷ es) = rw (eq-add k idx e.0, has_index-shift idx es) refl

  is_deferred-shift :
      (idx : ℕ) (ds : Deferrals)
      → is_deferred (k + idx) (map (shift_entry k) ds) ≡ is_deferred idx ds
  unfolding is_deferred
  is_deferred-shift idx [] = refl
  is_deferred-shift idx (d ∷ ds) = rw (has_index-shift idx d.1, is_deferred-shift idx ds) refl

  deferred_at-shift :
      (idx : ℕ) (ds : Deferrals)
      → deferred_at (k + idx) (map (shift_entry k) ds) ≡ map (shift k) (deferred_at idx ds)
  unfolding deferred_at
  deferred_at-shift idx [] = refl
  deferred_at-shift idx (d ∷ ds) = elim (Bool-cases (nat_eq idx d.0)) [
    | inl p ↦ rw (eq-add k idx d.0, p) refl
    | inr p ↦ rw (eq-add k idx d.0, p) (deferred_at-shift idx ds)
  ]

  kept-shift :
      (ds : Deferrals) (e : Indexed)
      → kept (map (shift_entry k) ds) (shift k e) ≡ map (shift k) (kept ds e)
  kept-shift ds e = elim (Bool-cases (is_deferred e.0 ds)) [
    | inl p ↦ rw (is_deferred-shift e.0 ds, p) refl
    | inr p ↦ rw (is_deferred-shift e.0 ds, p) refl
  ]

  project-shift :
      (ds : Deferrals) (es : List Indexed)
      → project (map (shift_entry k) ds) (map (shift k) es) ≡ map (shift k) (project ds es)
  unfolding project
  project-shift ds [] = refl
  project-shift ds (e ∷ es) =
      rw
        (
          kept-shift ds e,
          deferred_at-shift e.0 ds,
          project-shift ds es,
          map-append (shift k) (kept ds e ++ deferred_at e.0 ds) (project ds es),
          map-append (shift k) (kept ds e) (deferred_at e.0 ds),
        )
        refl

  pub project_indexed-shift :
      (es : List Indexed) → project_indexed (map (shift k) es) ≡ map (shift k) (project_indexed es)
  unfolding project_indexed
  project_indexed-shift es =
      rw (intervals-shift none es, deferred_by_end-shift (intervals none es) es)
        (project-shift (deferred_by_end (intervals none es) es) es)
