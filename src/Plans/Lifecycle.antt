-- ===== src/Plans/Lifecycle.antt =====
-- The verbs of src/core/plans.py against the life of a plan that the registry promises: presented,
-- amended, approved, closed.
use claude_code_manager.Base.{
  ℕ, ◌+◌, ◌≡◌, Bool, true, Option, none, some, List, [], ◌∷◌, ◌++◌, String, ℕ_eq, Text, ok, ◌>>=◌,
  >>=-eq-ok, require, arith, Option-cases, inl, inr,
}
use claude_code_manager.Plans.{Version, Plan, Files, PlanError}
use claude_code_manager.Plans.Paths.{normpath}
use claude_code_manager.Plans.Resolve.{
  Place, locate, put_back, has_id, require_plan, check_open, require_open_plan, is_candidate, ids,
  only_candidate, resolve_for_amend, resolve_for_approve, check_unapproved, find_binding_by_file,
  validate_file_in_session_dir, validate_new_version_file, check_unbound,
}
use claude_code_manager.Plans.Verbs.{
  maximum, get_last?, Draft, new_plan, amended, amend_triggers, close_modes, has_note, newest,
  latest, draft_present, draft_amend, check_unclosed, draft_approve, draft_close, Verb, present,
  amend, approve, close, draft,
}

-- A file that `fs` can resolve to and that backs no version yet.
pub record IsNew (fs : Files) (file : Text) (plans : List Plan) : Type 0 where
  pub asked : Text
  pub resolves : fs.resolve asked ≡ some file
  pub there : fs.exists file ≡ true
  pub passes : fs.failures file ≡ 0
  pub unbound : find_binding_by_file file plans ≡ none

-- One change of the registry, and the plan `q` that it leaves.
pub data Edit (fs : Files) (plans plans' : List Plan) (q : Plan) : Type 0 where
  presented :
      (now title file : Text) (base : Option Text)
      → IsNew fs file plans
      → q ≡ new_plan now title base file (maximum (ids plans) + 1)
      → plans' ≡ plans ++ q ∷ []
      → Edit fs plans plans' q
  revised :
      (l : Place) (x : Version)
      → plans ≡ put_back l l.plan
      → l.plan.closed ≡ none
      → newest l.plan.versions >>= (λ m. ok (m + 1)) ≡ ok x.v
      → amend_triggers x.trigger ≡ true
      → IsNew fs x.file plans
      → q ≡ amended x l.plan
      → plans' ≡ put_back l q
      → Edit fs plans plans' q
  granted :
      (l : Place) (x : Version) (now : Text)
      → plans ≡ put_back l l.plan
      → l.plan.closed ≡ none
      → l.plan.takeoff ≡ none
      → get_last? l.plan.versions ≡ some x
      → q ≡ record (l.plan) { takeoff = some (record { v = x.v; at = now }) }
      → plans' ≡ put_back l q
      → Edit fs plans plans' q
  finished :
      (l : Place) (close_as : String) (now : Text)
      → plans ≡ put_back l l.plan
      → l.plan.closed ≡ none
      → close_modes close_as ≡ true
      → q ≡ record (l.plan) { closed = some (record { close_as = close_as; at = now }) }
      → plans' ≡ put_back l q
      → Edit fs plans plans' q

pub locate-eq :
    (test : Plan → Bool) (plans : List Plan) (l : Place)
    → locate test plans ≡ some l
    → (plans ≡ put_back l l.plan) × (test l.plan ≡ true)
unfolding locate
locate-eq test [] l h = cc
locate-eq test (p ∷ ps) l h = elim (Option-cases (locate test ps)) [
  | inl miss ↦ ground arith
  | inr (r, found) ↦ ground (arith, locate-eq test ps r found)
]

require_open_plan-eq :
    (plans : List Plan) (n : ℕ) (l : Place)
    → require_open_plan plans n ≡ ok l
    → (plans ≡ put_back l l.plan) × (l.plan.closed ≡ none)
unfolding require_open_plan require_plan check_open
require_open_plan-eq plans n l h = elim (Option-cases (locate (has_id n) plans)) [
  | inl miss ↦ ground arith
  | inr (r, found) ↦ ground (arith, locate-eq (has_id n) plans r found)
]

candidate-eq : (p : Plan) → is_candidate p ≡ true → (p.closed ≡ none) × (p.takeoff ≡ none)
unfolding is_candidate
candidate-eq p h = ground arith

only_candidate-eq :
    (e : PlanError) (many : List ℕ → PlanError) (plans : List Plan) (l : Place)
    → only_candidate e many plans ≡ ok l
    → (plans ≡ put_back l l.plan) × (l.plan.closed ≡ none) × (l.plan.takeoff ≡ none)
unfolding only_candidate
only_candidate-eq e many plans l h = elim (Option-cases (locate is_candidate plans)) [
  | inl miss ↦ ground arith
  | inr (r, found) ↦ ground (arith, locate-eq is_candidate plans r found, candidate-eq r.plan)
]

pub resolve_for_amend-eq :
    (plans : List Plan) (plan_id : Option ℕ) (l : Place)
    → resolve_for_amend plans plan_id ≡ ok l
    → (plans ≡ put_back l l.plan) × (l.plan.closed ≡ none)
unfolding resolve_for_amend
resolve_for_amend-eq plans (some n) l h = require_open_plan-eq plans n l h
resolve_for_amend-eq plans none l h = let (e, c, t) = only_candidate-eq _ _ plans l h in (e, c)

pub resolve_for_approve-eq :
    (plans : List Plan) (plan_id : Option ℕ) (l : Place)
    → resolve_for_approve plans plan_id ≡ ok l
    → (plans ≡ put_back l l.plan) × (l.plan.closed ≡ none) × (l.plan.takeoff ≡ none)
unfolding resolve_for_approve check_unapproved
resolve_for_approve-eq plans (some n) l h =
    let (r, found, checked) = >>=-eq-ok (require_open_plan plans n) _ h in
    let (e, c) = require_open_plan-eq plans n r found in ground arith
resolve_for_approve-eq plans none l h = only_candidate-eq _ _ plans l h

validate-IsNew :
    (fs : Files) (file relative : Text) (plans : List Plan)
    → validate_new_version_file fs file plans ≡ ok relative
    → IsNew fs relative plans
unfolding validate_new_version_file validate_file_in_session_dir check_unbound
validate-IsNew fs file relative plans h = record {
  asked = normpath file;
  resolves = ground arith;
  there = ground arith;
  passes = ground arith;
  unbound = ground arith;
}

pub require_plan-eq :
    (plans : List Plan) (n : ℕ) (l : Place)
    → require_plan plans n ≡ ok l
    → plans ≡ put_back l l.plan
unfolding require_plan
require_plan-eq plans n l h = elim (Option-cases (locate (has_id n) plans)) [
  | inl miss ↦ ground arith
  | inr (r, found) ↦ ground (arith, locate-eq (has_id n) plans r found)
]

pub check_unclosed-eq :
    (n : ℕ) (l r : Place) → check_unclosed n l ≡ ok r → (l ≡ r) × (l.plan.closed ≡ none)
unfolding check_unclosed
check_unclosed-eq n l r h = ground arith

module _ (fs : Files) (space : ℕ → Bool) (now : Text) where
  present-Edit :
      (file title : Text) (base : Option Text) (plans : List Plan) (d : Draft)
      → draft_present fs now file title base plans ≡ ok d
      → Edit fs plans d.plans d.plan
  unfolding draft_present
  present-Edit file title base plans d h =
      let (relative, valid, rest) = >>=-eq-ok (validate_new_version_file fs file plans) _ h in
      presented now title relative base (validate-IsNew fs file relative plans valid) (ground arith)
        (ground arith)

  amend-Edit :
      (file : Text) (plan_id : Option ℕ) (trigger : String) (base note : Option Text)
      (plans : List Plan) (d : Draft)
      → draft_amend fs space now file plan_id trigger base note plans ≡ ok d
      → Edit fs plans d.plans d.plan
  unfolding draft_amend
  amend-Edit file plan_id trigger base note plans d h =
      let (_, allowed, h₁) = >>=-eq-ok (require (amend_triggers trigger) _) _ h in
      let (_, noted, h₂) = >>=-eq-ok (require (has_note space note) _) _ h₁ in
      let (relative, valid, h₃) = >>=-eq-ok (validate_new_version_file fs file plans) _ h₂ in
      let (l, found, h₄) = >>=-eq-ok (resolve_for_amend plans plan_id) _ h₃ in
      let (m, top, h₅) = >>=-eq-ok (newest l.plan.versions) _ h₄ in
      let (e, c) = resolve_for_amend-eq plans plan_id l found in
      revised l
        (record {
          v = m + 1;
          file = relative;
          created_at = now;
          trigger = trigger;
          base = base;
          note = note;
        })
        e c (rw top) (ground arith) (validate-IsNew fs file relative plans valid) (ground arith)
        (ground arith)

  approve-Edit :
      (plan_id : Option ℕ) (plans : List Plan) (d : Draft)
      → draft_approve now plan_id plans ≡ ok d
      → Edit fs plans d.plans d.plan
  unfolding draft_approve
  approve-Edit plan_id plans d h =
      let (l, found, h₁) = >>=-eq-ok (resolve_for_approve plans plan_id) _ h in
      let (x, last, h₂) = >>=-eq-ok (latest l.plan.versions) _ h₁ in
      let (e, c, t) = resolve_for_approve-eq plans plan_id l found in
      granted l x now e c t (unfold latest in ground arith) (ground arith) (ground arith)

  close-Edit :
      (n : ℕ) (close_as : String) (plans : List Plan) (d : Draft)
      → draft_close now n close_as plans ≡ ok d
      → Edit fs plans d.plans d.plan
  unfolding draft_close
  close-Edit n close_as plans d h =
      let (_, allowed, h₁) = >>=-eq-ok (require (close_modes close_as) _) _ h in
      let (l, found, h₂) = >>=-eq-ok (require_plan plans n) _ h₁ in
      let (r, unclosed, h₃) = >>=-eq-ok (check_unclosed n l) _ h₂ in
      let (same, c) = check_unclosed-eq n l r unclosed in
      finished l close_as now (require_plan-eq plans n l found) c (ground arith) (ground arith)
        (ground arith)

  -- A verb that does not raise makes one legal change: it presents a new plan behind the others
  -- under an id above all of theirs, or revises, approves or closes one plan that is open, in its
  -- place, and leaves every other plan as it is; a file that it binds exists, passes the check and
  -- backs no version yet.
  pub draft-Edit :
      (verb : Verb) (plans : List Plan) (d : Draft)
      → draft fs space now verb plans ≡ ok d
      → Edit fs plans d.plans d.plan
  unfolding draft
  draft-Edit (present file title base) plans d h = present-Edit file title base plans d h
  draft-Edit (amend file plan_id trigger base note) plans d h =
      amend-Edit file plan_id trigger base note plans d h
  draft-Edit (approve plan_id) plans d h = approve-Edit plan_id plans d h
  draft-Edit (close n close_as) plans d h = close-Edit n close_as plans d h
