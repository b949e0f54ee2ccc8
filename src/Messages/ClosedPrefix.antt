-- ===== src/Messages/ClosedPrefix.antt =====
-- src/core/message_events.py: the stable order of a history whose prefix is closed.
use claude_code_manager.Base.{
  ℕ, suc, ◌+◌, ◌≤◌, ◌≡◌, refl, ap, sym, ◌∙◌, Bool, true, false, Option, none, some, List, [], ◌∷◌,
  ◌++◌, append_assoc, if◌then◌else◌, map, length, arith, Bool-cases, ◌⊎◌, inl, inr, take,
}
use claude_code_manager.Messages.Aggregator.{Event}
use claude_code_manager.Messages.StableOrder.{
  Indexed, enumerate, is_run_start, is_run_end, start_after, completed, entry_at, deferred_in,
  intervals, deferred_by_end, Deferrals, project, kept, deferred_at, project_indexed,
  stable_history_projection, open_after, closed_from, stable_closed_prefix_len,
}
use claude_code_manager.Messages.Borders.{
  Below, Above, intervals-Below, intervals-Above, deferred_by_end-Below, deferred_by_end-Above,
  deferred_by_end-left, deferred_by_end-right, project-left, project-right,
}
use claude_code_manager.Messages.Shifts.{shift, enumerate-shift, project_indexed-shift}

-- Whether an interval is open behind the events.
unfoldable pub opens : Bool → List Event → Bool
opens is_open [] = is_open
opens is_open (ev ∷ evs) = opens (open_after is_open ev) evs

abbrev pub IsClosed : List Event → Type 0
IsClosed evs = opens false evs ≡ false

pub opens-append : (o : Bool) (xs ys : List Event) → opens o (xs ++ ys) ≡ opens (opens o xs) ys
unfolding opens
opens-append o [] ys = refl
opens-append o (x ∷ xs) ys = opens-append (open_after o x) xs ys

abbrev end_start : Option ℕ → List Indexed → Option ℕ
end_start st [] = st
end_start st (e ∷ es) = end_start (start_after st e) es

abbrev has_start : Option ℕ → Bool
has_start none = false
has_start (some s) = true

has_start-after :
    (st : Option ℕ) (e : Indexed) → has_start (start_after st e) ≡ open_after (has_start st) e.1
has_start-after st e = elim (Bool-cases (is_run_start e.1)) [
  | inl p ↦ rw p refl
  | inr p ↦ elim (Bool-cases (is_run_end e.1)) [ inl q ↦ rw (p, q) refl | inr q ↦ rw (p, q) refl ]
]

has_start-end :
    (st : Option ℕ) (k : ℕ) (evs : List Event)
    → has_start (end_start st (enumerate k evs)) ≡ opens (has_start st) evs
unfolding opens
has_start-end st k [] = refl
has_start-end st k (ev ∷ evs) =
    has_start-end (start_after st (k, ev)) (suc k) evs
    ∙ ap (λ o. opens o evs) (has_start-after st (k, ev))

no_start : (st : Option ℕ) → has_start st ≡ false → st ≡ none
no_start none h = refl
no_start (some s) h = cc

intervals-append :
    (st : Option ℕ) (es es' : List Indexed)
    → intervals st (es ++ es') ≡ intervals st es ++ intervals (end_start st es) es'
unfolding intervals
intervals-append st [] es' = refl
intervals-append st (e ∷ es) es' =
    rw (intervals-append (start_after st e) es es') (sym (append_assoc (completed st e) _ _))

deferred_by_end-append :
    (is js : List (ℕ × ℕ)) (es : List Indexed)
    → deferred_by_end (is ++ js) es ≡ deferred_by_end is es ++ deferred_by_end js es
unfolding deferred_by_end
deferred_by_end-append [] js es = refl
deferred_by_end-append (i ∷ is) js es = rw (deferred_by_end-append is js es) (
    sym (
      append_assoc (entry_at i.1 (deferred_in i es)) (deferred_by_end is es)
        (deferred_by_end js es)))

project-append :
    (ds : Deferrals) (es es' : List Indexed)
    → project ds (es ++ es') ≡ project ds es ++ project ds es'
unfolding project
project-append ds [] es' = refl
project-append ds (e ∷ es) es' =
    rw (project-append ds es es') (sym (append_assoc (kept ds e ++ deferred_at e.0 ds) _ _))

project_indexed-append :
    (b : ℕ) (es es' : List Indexed)
    → Below b es
    → Above b es'
    → end_start none es ≡ none
    → project_indexed (es ++ es') ≡ project_indexed es ++ project_indexed es'
unfolding project_indexed
project_indexed-append b es es' below above ended =
    let is = intervals none es in
    let js = intervals none es' in
    let below_es = deferred_by_end-Below b is es (intervals-Below b none es below) below in
    let above_es = deferred_by_end-Above b js es' (intervals-Above b none es' tt above) above in
    rw
      (
        intervals-append none es es',
        ended,
        deferred_by_end-append is js (es ++ es'),
        deferred_by_end-left b is es es' (intervals-Below b none es below) above,
        deferred_by_end-right b js es es' (intervals-Above b none es' tt above) below,
        project-append (deferred_by_end is es ++ deferred_by_end js es') es es',
        project-left b (deferred_by_end is es) (deferred_by_end js es') es below above_es,
        project-right b (deferred_by_end is es) (deferred_by_end js es') es' above below_es,
      )
      refl

enumerate-append :
    (k n : ℕ) (xs ys : List Event)
    → n ≡ k + length xs
    → enumerate k (xs ++ ys) ≡ enumerate k xs ++ enumerate n ys
enumerate-append k n [] ys h =
    rw h (ap (λ j. enumerate j ys) (let e : k ≡ k + 0 = omega arith in e))
enumerate-append k n (x ∷ xs) ys h =
    ap (◌∷◌ (k, x)) (enumerate-append (suc k) n xs ys (omega (arith, h)))

enumerate-Below : (k b : ℕ) (xs : List Event) → k + length xs ≤ b → Below b (enumerate k xs)
enumerate-Below k b [] h = tt
enumerate-Below k b (x ∷ xs) h = (omega (arith, h), enumerate-Below (suc k) b xs (omega (arith, h)))

enumerate-Above : (k b : ℕ) (xs : List Event) → b ≤ k → Above b (enumerate k xs)
enumerate-Above k b [] h = tt
enumerate-Above k b (x ∷ xs) h = (h, enumerate-Above (suc k) b xs (omega (arith, h)))

-- Behind a closed prefix, the stable order is that of the prefix and then that of the rest.
pub stable_history_projection-append :
    (xs ys : List Event)
    → IsClosed xs
    → stable_history_projection (xs ++ ys)
      ≡ stable_history_projection xs ++ map (shift (length xs)) (stable_history_projection ys)
stable_history_projection-append xs ys closed =
    let n = length xs in
    rw
      (
        enumerate-append 0 n xs ys (omega arith),
        project_indexed-append n (enumerate 0 xs) (enumerate n ys)
            (enumerate-Below 0 n xs (omega arith)) (enumerate-Above n n ys (omega arith))
            (no_start _ (has_start-end none 0 xs ∙ closed)),
        enumerate-shift n 0 n ys (omega arith),
        project_indexed-shift n (enumerate 0 ys),
      )
      refl

-- The scan keeps what it had, or ends behind some of the events with no interval open.
closed_from-cases :
    (o : Bool) (closed idx : ℕ) (evs : List Event)
    → (closed_from o closed idx evs ≡ closed)
      ⊎ ((m : ℕ) × (closed_from o closed idx evs ≡ idx + m)
          × (m ≤ length evs)
          × (opens o (take m evs) ≡ false))
unfolding closed_from opens
closed_from-cases o closed idx [] = inl refl
closed_from-cases o closed idx (ev ∷ evs) =
    let o' = open_after o ev in
    elim (closed_from-cases o' (if o' then closed else suc idx) (suc idx) evs) [
      | inr (m, e, le, shut) ↦ inr (suc m, omega (arith, e), omega (arith, le), shut)
      | inl same ↦ elim (Bool-cases o') [
        | inl p ↦ inl (same ∙ rw p refl)
        | inr p ↦ inr (1, same ∙ rw p (omega arith), omega arith, p)
      ]
    ]

pub stable_closed_prefix_len-IsClosed :
    (evs : List Event)
    → IsClosed (take (stable_closed_prefix_len evs) evs)
      × (stable_closed_prefix_len evs ≤ length evs)
unfolding opens
stable_closed_prefix_len-IsClosed evs = elim (closed_from-cases false 0 0 evs) [
  | inl same ↦ rw same (refl, omega arith)
  | inr (m, e, le, shut) ↦
      let e' : stable_closed_prefix_len evs ≡ m = omega (arith, e) in rw e' (shut, le)
]
