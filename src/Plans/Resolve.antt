-- ===== src/Plans/Resolve.antt =====
-- Which plan a verb of src/core/plans.py means, and which file may back a new version.
use claude_code_manager.Base.{
  ℕ, Bool, true, false, Option, none, some, List, [], ◌∷◌, ◌++◌, map, filter, ◌==◌, ℕ_eq, Text,
  Text_eq, nat_eq, if◌then◌else◌, Outcome, ok, raise, ◌>>=◌, ◌>>◌, require,
}
use claude_code_manager.Plans.{
  Version, Plan, Files, PlanError, outside_session, file_not_found, assertions_failed,
  already_bound, plan_not_found, already_approved, plan_closed, no_open_lineage, no_candidate,
  many_open_lineages, many_candidates,
}
use claude_code_manager.Plans.Paths.{normpath}

-- A plan that a verb found, between those before and behind it: the verb mutates it in place.
pub record Place : Type 0 where
  pub before : List Plan
  pub plan : Plan
  pub behind : List Plan

unfoldable pub locate : (Plan → Bool) → List Plan → Option Place
locate test [] = none
locate test (p ∷ ps) =
    if test p
    then some (record { before = []; plan = p; behind = ps })
    else elim (locate test ps) [ none ↦ none | some l ↦ some (record l { before = p ∷ l.before }) ]

abbrev pub put_back : Place → Plan → List Plan
put_back l p = l.before ++ (p ∷ l.behind)

abbrev pub has_id : ℕ → Plan → Bool
has_id n p = p.id == n

unfoldable pub require_plan : List Plan → ℕ → Outcome PlanError Place
require_plan plans n = elim (locate (has_id n) plans) [
  | none ↦ raise (plan_not_found n)
  | some l ↦ ok l
]

unfoldable pub check_open : ℕ → Place → Outcome PlanError Place
check_open n l = elim l.plan.closed [ none ↦ ok l | some c ↦ raise (plan_closed n c.close_as) ]

unfoldable pub require_open_plan : List Plan → ℕ → Outcome PlanError Place
require_open_plan plans n = do l ← require_plan plans n; check_open n l

-- Neither closed nor approved.
unfoldable pub is_candidate : Plan → Bool
is_candidate p = elim p.closed [
  | some c ↦ false
  | none ↦ elim p.takeoff [ none ↦ true | some t ↦ false ]
]

abbrev pub ids : List Plan → List ℕ
ids = map (λ p. p.id)

-- The only candidate, or the error of none and that of many.
unfoldable pub only_candidate :
    PlanError → (List ℕ → PlanError) → List Plan → Outcome PlanError Place
only_candidate no_one many plans = elim (filter is_candidate plans) [
  | [] ↦ raise no_one
  | p ∷ [] ↦ elim (locate is_candidate plans) [ none ↦ raise no_one | some l ↦ ok l ]
  | p ∷ q ∷ ps ↦ raise (many (ids (p ∷ q ∷ ps)))
]

unfoldable pub resolve_for_amend : List Plan → Option ℕ → Outcome PlanError Place
resolve_for_amend plans (some n) = require_open_plan plans n
resolve_for_amend plans none = only_candidate no_open_lineage many_open_lineages plans

unfoldable pub check_unapproved : ℕ → Place → Outcome PlanError Place
check_unapproved n l = elim l.plan.takeoff [ none ↦ ok l | some t ↦ raise (already_approved n) ]

unfoldable pub resolve_for_approve : List Plan → Option ℕ → Outcome PlanError Place
resolve_for_approve plans (some n) = do l ← require_open_plan plans n; check_unapproved n l
resolve_for_approve plans none = only_candidate no_candidate many_candidates plans

-- `_find_binding_by_file`, over one plan's versions and over the plans
unfoldable pub find_version : Text → List Version → Option ℕ
find_version file [] = none
find_version file (x ∷ xs) = if normpath x.file == file then some x.v else find_version file xs

unfoldable pub find_binding_by_file : Text → List Plan → Option (ℕ × ℕ)
find_binding_by_file file [] = none
find_binding_by_file file (p ∷ ps) = elim (find_version file p.versions) [
  | some v ↦ some (p.id, v)
  | none ↦ find_binding_by_file file ps
]

module _ (fs : Files) where
  unfoldable pub validate_file_in_session_dir : Text → Outcome PlanError Text
  validate_file_in_session_dir file = elim (fs.resolve file) [
    | none ↦ raise (outside_session file)
    | some relative ↦ if fs.exists relative then ok relative else raise (file_not_found file)
  ]

  unfoldable pub check_unbound : Text → List Plan → Outcome PlanError Text
  check_unbound file plans = elim (find_binding_by_file file plans) [
    | some b ↦ raise (already_bound b.0 b.1)
    | none ↦ ok file
  ]

  unfoldable pub validate_new_version_file : Text → List Plan → Outcome PlanError Text
  validate_new_version_file file plans = do
    relative ← validate_file_in_session_dir (normpath file)
    require (nat_eq (fs.failures relative) 0) (assertions_failed (fs.failures relative))
    check_unbound relative plans
