-- ===== src/Plans/Verbs.antt =====
-- The verbs of `PlanRegistryManager` in src/core/plans.py.
use claude_code_manager.Base.{
  ℕ, ◌+◌, Bool, true, false, not, ◌||◌, Option, none, some, List, [], ◌∷◌, ◌++◌, map, String,
  String_eq, ◌==◌, Text, max, is_empty, strip, Outcome, ok, raise, ◌>>=◌, ◌>>◌, require,
}
use claude_code_manager.Plans.{
  Version, Plan, Files, Store, Reply, PlanError, derive_plan_state, bad_trigger, empty_note,
  empty_max, index_error, bad_close_mode, already_closed,
}
use claude_code_manager.Plans.Resolve.{
  Place, put_back, require_plan, resolve_for_amend, resolve_for_approve, validate_new_version_file,
}

-- `max(…, default=0)`
abbrev pub maximum : List ℕ → ℕ
maximum [] = 0
maximum (x ∷ xs) = max x (maximum xs)

abbrev pub get_last? {ℓ} : {A : Type ℓ} → List A → Option A
get_last? [] = none
get_last? (x ∷ []) = some x
get_last? (x ∷ y ∷ xs) = get_last? (y ∷ xs)

abbrev pub version_numbers : List Version → List ℕ
version_numbers = map (λ x. x.v)

-- What a verb is about to save: the plans, the plan that it names, and the version of its reply.
pub record Draft : Type 0 where
  pub plans : List Plan
  pub plan : Plan
  pub version : Option ℕ

unfoldable pub new_plan : Text → Text → Option Text → Text → ℕ → Plan
new_plan now title base file n = record {
  id = n;
  title = title;
  versions =
      record { v = 1; file = file; created_at = now; trigger = "initial"; base = base; note = none }
      ∷ [];
  takeoff = none;
  closed = none;
}

unfoldable pub amended : Version → Plan → Plan
amended new p = record p { versions = p.versions ++ new ∷ []; takeoff = none }

unfoldable pub amend_triggers : String → Bool
amend_triggers t = (t == "auto_amend") || (t == "feedback")

unfoldable pub close_modes : String → Bool
close_modes m = (m == "superseded") || ((m == "abandoned") || (m == "completed"))

-- `note.strip()` of a note that may be missing
unfoldable pub has_note : (ℕ → Bool) → Option Text → Bool
has_note space none = false
has_note space (some s) = not (is_empty (strip space s))

-- `max(ver["v"] for ver in versions)`, which raises on no versions
unfoldable pub newest : List Version → Outcome PlanError ℕ
newest [] = raise empty_max
newest (x ∷ xs) = ok (maximum (version_numbers (x ∷ xs)))

-- `versions[-1]`
unfoldable pub latest : List Version → Outcome PlanError Version
latest xs = elim (get_last? xs) [ none ↦ raise index_error | some x ↦ ok x ]

unfoldable pub draft_present :
    Files → Text → Text → Text → Option Text → List Plan → Outcome PlanError Draft
draft_present fs now file title base plans = do
  relative ← validate_new_version_file fs file plans
  let p = new_plan now title base relative (maximum (map (λ q. q.id) plans) + 1)
  ok (record { plans = plans ++ p ∷ []; plan = p; version = some 1 })

unfoldable pub draft_amend :
    Files
    → (ℕ → Bool)
    → Text
    → Text
    → Option ℕ
    → String
    → Option Text
    → Option Text
    → List Plan
    → Outcome PlanError Draft
draft_amend fs space now file plan_id trigger base note plans = do
  require (amend_triggers trigger) (bad_trigger trigger)
  require (has_note space note) empty_note
  relative ← validate_new_version_file fs file plans
  l ← resolve_for_amend plans plan_id
  m ← newest l.plan.versions
  let new : Version = record {
    v = m + 1;
    file = relative;
    created_at = now;
    trigger = trigger;
    base = base;
    note = note;
  }
  let p = amended new l.plan
  ok (record { plans = put_back l p; plan = p; version = some (m + 1) })

unfoldable pub draft_approve : Text → Option ℕ → List Plan → Outcome PlanError Draft
draft_approve now plan_id plans = do
  l ← resolve_for_approve plans plan_id
  x ← latest l.plan.versions
  let p : Plan = record (l.plan) { takeoff = some (record { v = x.v; at = now }) }
  ok (record { plans = put_back l p; plan = p; version = some x.v })

unfoldable pub check_unclosed : ℕ → Place → Outcome PlanError Place
check_unclosed n l = elim l.plan.closed [
  | none ↦ ok l
  | some c ↦ raise (already_closed n c.close_as)
]

unfoldable pub draft_close : Text → ℕ → String → List Plan → Outcome PlanError Draft
draft_close now n close_as plans = do
  require (close_modes close_as) (bad_close_mode close_as)
  l ← require_plan plans n
  l ← check_unclosed n l
  let p : Plan = record (l.plan) { closed = some (record { close_as = close_as; at = now }) }
  ok (record { plans = put_back l p; plan = p; version = none })

-- `_save`, `_broadcast` and the reply, whose state is derived after the save.
unfoldable pub save : Outcome PlanError Draft → Store → Outcome PlanError Reply × Store
save (raise e) s = (raise e, s)
save (ok d) s = (
  do
    state ← derive_plan_state d.plan
    ok (record { plan = d.plan.id; version = d.version; state = state }),
  record { plans = d.plans; dirty = true; broadcasts = s.broadcasts ++ d.plan.id ∷ [] },
)

-- A request of one of the four verbs.
pub data Verb : Type 0 where
  present : Text → Text → Option Text → Verb
  amend : Text → Option ℕ → String → Option Text → Option Text → Verb
  approve : Option ℕ → Verb
  close : ℕ → String → Verb

module _ (fs : Files) (space : ℕ → Bool) (now : Text) where
  unfoldable pub draft : Verb → List Plan → Outcome PlanError Draft
  draft (present file title base) plans = draft_present fs now file title base plans
  draft (amend file plan_id trigger base note) plans =
      draft_amend fs space now file plan_id trigger base note plans
  draft (approve plan_id) plans = draft_approve now plan_id plans
  draft (close n close_as) plans = draft_close now n close_as plans

  unfoldable pub perform : Verb → Store → Outcome PlanError Reply × Store
  perform verb s = save (draft verb s.plans) s
