-- ===== src/TaskChain/Judged.antt =====
-- The judgment before a wake, as the server keeps it (src/core/chat_events.py), against the scan of all
-- the chat events (src/core/finalize_effects.py).
use claude_code_manager.Base.{
  ℕ, suc, ◌≤◌, ◌≡◌, refl, sym, ◌∙◌, true, false, not, ◌&&◌, Option, none, some, List, [], ◌∷◌, ◌++◌,
  append-nil, append_assoc, any, ltb, nat_eq, nat_eq_iff, if◌then◌else◌, Bool-cases, inl, inr,
  arith, ℕ_eq,
}
use claude_code_manager.Memo.{lookup, assign}
use claude_code_manager.Memo.Entries.{lookup-assign, lookup-assign_other}
use claude_code_manager.TaskChain.{
  SessionEvent, worker_summary, assistant, master_done, assistant_error, other_event,
  is_master_output, behind_summary, has_output, master_woke_after_summary, FinalizeFold, absorb,
  absorb_all, build, master_woke,
}

any-append :
    (seen evs : List SessionEvent)
    → any is_master_output (seen ++ evs)
      ≡ (if any is_master_output seen then true else any is_master_output evs)
any-append [] evs = refl
any-append (ev ∷ seen) evs = elim (Bool-cases (is_master_output ev)) [
  | inl h ↦ rw h refl
  | inr h ↦ rw h (any-append seen evs)
]

-- A fold knows of what the scan has found for a thread, of which `evs` are still to come.
Agrees : ℕ → FinalizeFold → Option (List SessionEvent) → List SessionEvent → Type 0
Agrees thread f none evs = lookup thread f.summary_marks ≡ none
Agrees thread f (some suffix) evs =
    (mark : ℕ) × (lookup thread f.summary_marks ≡ some mark)
    × (mark ≤ f.master_outputs)
    × (seen : List SessionEvent) × (suffix ≡ seen ++ evs)
    × (any is_master_output seen ≡ ltb mark f.master_outputs)

one_more :
    (seen evs : List SessionEvent) (ev : SessionEvent) → seen ++ ev ∷ evs ≡ (seen ++ ev ∷ []) ++ evs
one_more seen evs ev = sym (append_assoc seen (ev ∷ []) evs)

silent :
    (seen : List SessionEvent) (ev : SessionEvent)
    → is_master_output ev ≡ false
    → any is_master_output (seen ++ ev ∷ []) ≡ any is_master_output seen
silent seen ev h = elim (Bool-cases (any is_master_output seen)) [
  | inl q ↦ any-append seen (ev ∷ []) ∙ rw q refl
  | inr q ↦ any-append seen (ev ∷ []) ∙ rw (q, h) refl
]

loud :
    (seen : List SessionEvent) (ev : SessionEvent)
    → is_master_output ev ≡ true
    → any is_master_output (seen ++ ev ∷ []) ≡ true
loud seen ev h = elim (Bool-cases (any is_master_output seen)) [
  | inl q ↦ any-append seen (ev ∷ []) ∙ rw q refl
  | inr q ↦ any-append seen (ev ∷ []) ∙ rw (q, h) refl
]

-- An event that is neither changes nothing of the fold.
Agrees-silent :
    (thread : ℕ) (f g : FinalizeFold) (found : Option (List SessionEvent)) (ev : SessionEvent)
    (evs : List SessionEvent)
    → lookup thread g.summary_marks ≡ lookup thread f.summary_marks
    → g.master_outputs ≡ f.master_outputs
    → is_master_output ev ≡ false
    → Agrees thread f found (ev ∷ evs)
    → Agrees thread g found evs
unfolding Agrees
Agrees-silent thread f g none ev evs marks outputs quiet h = marks ∙ h
Agrees-silent thread f g (some suffix) ev evs marks outputs quiet
      (mark, marked, le, seen, cut, count) =
    (
      mark,
      marks ∙ marked,
      rw outputs le,
      seen ++ ev ∷ [],
      cut ∙ one_more seen evs ev,
      rw outputs (silent seen ev quiet ∙ count),
    )

Agrees-loud :
    (thread : ℕ) (f : FinalizeFold) (found : Option (List SessionEvent)) (ev : SessionEvent)
    (evs : List SessionEvent)
    → is_master_output ev ≡ true
    → Agrees thread f found (ev ∷ evs)
    → Agrees thread (record f { master_outputs = suc f.master_outputs }) found evs
unfolding Agrees
Agrees-loud thread f none ev evs out h = h
Agrees-loud thread f (some suffix) ev evs out (mark, marked, le, seen, cut, count) = (
  mark,
  marked,
  omega (arith, le),
  seen ++ ev ∷ [],
  cut ∙ one_more seen evs ev,
  loud seen ev out ∙ ground (arith, le),
)

not_terminal : (t thread : ℕ) → (nat_eq t thread && not true) ≡ false
not_terminal t thread = ground arith

master_woke-scan :
    (thread : ℕ) (found : Option (List SessionEvent)) (evs : List SessionEvent) (f : FinalizeFold)
    → Agrees thread f found evs
    → master_woke thread (absorb_all evs f) ≡ has_output (behind_summary thread found evs)
unfolding absorb_all absorb Agrees master_woke
master_woke-scan thread none [] f h = rw h refl
master_woke-scan thread (some suffix) [] f (mark, marked, le, seen, cut, count) =
    rw (marked, cut, append-nil seen) (sym count)
master_woke-scan thread found (worker_summary t true ∷ evs) f h = rw (not_terminal t thread) (
    master_woke-scan thread found evs f
      (Agrees-silent thread f f found (worker_summary t true) evs refl refl refl h))
master_woke-scan thread found (worker_summary t false ∷ evs) f h =
    let g : FinalizeFold = record f { summary_marks = assign t f.master_outputs f.summary_marks } in
    elim (Bool-cases (nat_eq t thread)) [
      | inl same ↦
          let e : t ≡ thread = (nat_eq_iff t thread).0 same in
          let marked : lookup thread g.summary_marks ≡ some f.master_outputs =
            rw e (lookup-assign thread f.master_outputs f.summary_marks) in
          rw same (
            master_woke-scan thread (some evs) evs g
              (f.master_outputs, marked, omega arith, [], refl, ground arith))
      | inr other ↦ rw other (
          master_woke-scan thread found evs g (
            Agrees-silent thread f g found (worker_summary t false) evs
              (lookup-assign_other t thread f.master_outputs f.summary_marks other) refl refl h))
    ]
master_woke-scan thread found (assistant ∷ evs) f h =
    master_woke-scan thread found evs _ (Agrees-loud thread f found assistant evs refl h)
master_woke-scan thread found (master_done ∷ evs) f h =
    master_woke-scan thread found evs _ (Agrees-loud thread f found master_done evs refl h)
master_woke-scan thread found (assistant_error ∷ evs) f h =
    master_woke-scan thread found evs _ (Agrees-loud thread f found assistant_error evs refl h)
master_woke-scan thread found (other_event ∷ evs) f h =
    master_woke-scan thread found evs f
      (Agrees-silent thread f f found other_event evs refl refl refl h)

-- The fold answers as the scan does.
pub master_woke-build :
    (chat : List SessionEvent) (thread : ℕ)
    → master_woke thread (build chat) ≡ master_woke_after_summary chat thread
unfolding master_woke_after_summary Agrees lookup
master_woke-build chat thread = master_woke-scan thread none chat _ refl
