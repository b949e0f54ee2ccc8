-- ===== src/Plans/Replies.antt =====
-- What the verbs of src/core/plans.py answer, and that an error changes nothing.
use claude_code_manager.Base.{
  ℕ, ◌<◌, ◌≡◌, refl, ◌∙◌, ap, Bool, true, Option, none, some, List, [], ◌∷◌, String, String_eq,
  ◌==◌, Text, arith, subst, length, length-append, Outcome-cases, >>=-eq-ok, inl, inr, ok, raise,
  Outcome, require, All, if◌then◌else◌,
}
use claude_code_manager.Plans.{
  Version, Takeoff, Plan, Files, Store, Reply, PlanError, DerivedState, awaiting_approval, approved,
  superseded, abandoned, completed, derive_state, derive_plan_state,
}
use claude_code_manager.Plans.Resolve.{
  Place, put_back, require_plan, resolve_for_amend, resolve_for_approve, validate_new_version_file,
}
use claude_code_manager.Plans.Verbs.{
  get_last?, Draft, new_plan, amended, amend_triggers, close_modes, has_note, newest, latest,
  draft_present, draft_amend, check_unclosed, draft_approve, draft_close, Verb, present, amend,
  approve, close, draft, perform, save,
}
use claude_code_manager.Plans.Lifecycle.{
  resolve_for_amend-eq, resolve_for_approve-eq, require_plan-eq, check_unclosed-eq,
}
use claude_code_manager.Plans.Order.{All-middle}
use claude_code_manager.Plans.Registry.{IsPlan, IsRegistry}

-- The state of a plan that was closed under a mode.
abbrev pub closed_state : String → DerivedState
closed_state mode =
    if mode == "superseded"
    then superseded
    else if mode == "abandoned"
    then abandoned
    else completed

-- The state that a plan has right after a verb.
abbrev pub state_after : Verb → DerivedState
state_after (present _ _ _) = awaiting_approval
state_after (amend _ _ _ _ _) = awaiting_approval
state_after (approve _) = approved
state_after (close _ mode) = closed_state mode

-- The reply of a verb that returns, and the session after one that raises.
abbrev pub Answers : Verb → Store → Outcome PlanError Reply × Store → Type 0
Answers verb s (ok r, _) = r.state ≡ state_after verb
Answers verb s (raise e, s') = s' ≡ s

derive-new :
    (now title file : Text) (base : Option Text) (n : ℕ)
    → derive_plan_state (new_plan now title base file n) ≡ ok awaiting_approval
unfolding new_plan derive_plan_state derive_state
derive-new now title file base n = refl

derive_some :
    (p : Plan) → 0 < length p.versions → derive_plan_state p ≡ derive_state p.closed p.takeoff
unfolding derive_plan_state
derive_some p h = grind arith

derive-amended :
    (x : Version) (p : Plan)
    → p.closed ≡ none
    → derive_plan_state (amended x p) ≡ ok awaiting_approval
unfolding amended derive_state
derive-amended x p c =
    derive_some (amended x p) (omega (arith, length-append p.versions (x ∷ []))) ∙ (rw c)

has_last : (vs : List Version) (x : Version) → get_last? vs ≡ some x → 0 < length vs
has_last [] x h = cc
has_last (y ∷ vs) x h = omega arith

derive-approved :
    (p : Plan) (x : Version) (t : Takeoff)
    → p.closed ≡ none
    → get_last? p.versions ≡ some x
    → derive_plan_state (record p { takeoff = some t }) ≡ ok approved
unfolding derive_state
derive-approved p x t c last =
    derive_some (record p { takeoff = some t }) (has_last p.versions x last) ∙ (rw c)

derive-closed :
    (p : Plan) (mode : String) (now : Text)
    → 0 < length p.versions
    → close_modes mode ≡ true
    → derive_plan_state (record p { closed = some (record { close_as = mode; at = now }) })
      ≡ ok (closed_state mode)
unfolding derive_state close_modes
derive-closed p mode now h allowed =
    derive_some (record p { closed = some (record { close_as = mode; at = now }) }) h ∙ ground arith

drafted_plan : (x d : Draft) → ◌≡◌ {A = Outcome PlanError Draft} (ok x) (ok d) → x.plan ≡ d.plan
drafted_plan x d e = ground arith

latest-eq : (vs : List Version) (x : Version) → latest vs ≡ ok x → get_last? vs ≡ some x
unfolding latest
latest-eq vs x e = ground arith

require-eq : (b : Bool) (e : PlanError) {u : Unit {0}} → require b e ≡ ok u → b ≡ true
require-eq b e h = ground arith

module _ (fs : Files) (space : ℕ → Bool) (now : Text) where
  -- The plan that a verb is about to save has the state that the verb names.
  pub draft-state :
      (verb : Verb) (plans : List Plan) (d : Draft)
      → IsRegistry plans
      → draft fs space now verb plans ≡ ok d
      → derive_plan_state d.plan ≡ ok (state_after verb)
  unfolding draft draft_present draft_amend draft_approve draft_close
  draft-state (present file title base) plans d h e =
      let (relative, valid, rest) = >>=-eq-ok (validate_new_version_file fs file plans) _ e in
      subst (λ p. derive_plan_state p ≡ ok awaiting_approval) (drafted_plan _ d rest)
        (derive-new now title relative base _)
  draft-state (amend file plan_id trigger base _) plans d h e =
      let (_, _, e₁) = >>=-eq-ok (require (amend_triggers trigger) _) _ e in
      let (_, _, e₂) = >>=-eq-ok (require (has_note space _) _) _ e₁ in
      let (relative, valid, e₃) = >>=-eq-ok (validate_new_version_file fs file plans) _ e₂ in
      let (l, found, e₄) = >>=-eq-ok (resolve_for_amend plans plan_id) _ e₃ in
      let (m, top, e₅) = >>=-eq-ok (newest l.plan.versions) _ e₄ in
      subst (λ p. derive_plan_state p ≡ ok awaiting_approval) (drafted_plan _ d e₅)
        (derive-amended _ l.plan (resolve_for_amend-eq plans plan_id l found).1)
  draft-state (approve plan_id) plans d h e =
      let (l, found, e₁) = >>=-eq-ok (resolve_for_approve plans plan_id) _ e in
      let (x, last, e₂) = >>=-eq-ok (latest l.plan.versions) _ e₁ in
      subst (λ p. derive_plan_state p ≡ ok approved) (drafted_plan _ d e₂)
        (derive-approved l.plan x _ (resolve_for_approve-eq plans plan_id l found).1
          (latest-eq l.plan.versions x last))
  draft-state (close n mode) plans d h e =
      let (_, allowed, e₁) = >>=-eq-ok (require (close_modes mode) _) _ e in
      let (l, found, e₂) = >>=-eq-ok (require_plan plans n) _ e₁ in
      let (r, unclosed, e₃) = >>=-eq-ok (check_unclosed n l) _ e₂ in
      let same : l ≡ r = (check_unclosed-eq n l r unclosed).0 in
      let placed : plans ≡ put_back r r.plan =
        require_plan-eq plans n l found ∙ ap (λ (k : Place). put_back k k.plan) same in
      let open_plan : IsPlan r.plan =
        All-middle IsPlan r.before r.behind r.plan (subst (All IsPlan) placed h.each) in
      subst (λ p. derive_plan_state p ≡ ok (closed_state mode)) (drafted_plan _ d e₃)
        (derive-closed r.plan mode now open_plan.some_version (require-eq _ _ allowed))

  -- On a registry that keeps its invariant, a verb that returns reports the state that it leads to,
  -- awaiting approval, approved or the mode of the closing; and a verb that raises saves nothing,
  -- marks nothing and broadcasts nothing.
  pub perform-answers :
      (verb : Verb) (s : Store) → IsRegistry s.plans → Answers verb s (perform fs space now verb s)
  unfolding perform save
  perform-answers verb s h = elim (Outcome-cases (draft fs space now verb s.plans)) [
    | inl (d, drafted) ↦ rw (drafted, save, perform, draft-state verb s.plans d h drafted) refl
    | inr (e, raised) ↦ rw (raised, save, perform) refl
  ]
