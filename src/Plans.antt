-- ===== src/Plans.antt =====
-- src/core/plans.py: the plan registry of a session, its verbs and the state that it derives.
--
-- The registry is the list of its plans. A verb runs under the session's lock, so it is one
-- function from the session's registry to what it returns or raises, the registry that is then on
-- disk, and the effects of a save: the sidebar mark and the broadcast. What the file system and
-- the artifact check answer is the parameter `Files`; `now` is the stamp that the verb takes.
pub mod Paths
pub mod Resolve
pub mod Verbs
pub mod Order
pub mod Registry
pub mod Histories
pub mod Evolution
pub mod Replies
mod Tests
pub mod Lifecycle
use claude_code_manager.Base.{
  ℕ, suc, ◌+◌, ◌≡◌, Bool, true, false, Option, none, some, List, [], ◌∷◌, ◌++◌, map, String,
  String_eq, ℕ_eq, ◌==◌, Text, Text_eq, Eq, if◌then◌else◌, Outcome, ok, raise, ◌>>=◌, max,
}

pub record Version : Type 0 where
  pub v : ℕ
  pub file : Text
  pub created_at : Text
  pub trigger : String
  pub base : Option Text
  pub note : Option Text

pub record Takeoff : Type 0 where
  pub v : ℕ
  pub at : Text

pub record Closed : Type 0 where
  pub close_as : String
  pub at : Text

pub record Plan : Type 0 where
  pub id : ℕ
  pub title : Text
  pub versions : List Version
  pub takeoff : Option Takeoff
  pub closed : Option Closed

pub data DerivedState : Type 0 where
  awaiting_approval approved superseded abandoned completed : DerivedState

pub data PlanError : Type 0 where
  outside_session file_not_found : Text → PlanError
  assertions_failed : ℕ → PlanError
  already_bound : ℕ → ℕ → PlanError
  plan_not_found already_approved : ℕ → PlanError
  plan_closed already_closed : ℕ → String → PlanError
  bad_trigger bad_close_mode unknown_close : String → PlanError
  empty_note no_open_lineage no_candidate no_versions empty_max index_error : PlanError
  many_open_lineages many_candidates : List ℕ → PlanError

-- `_derive_state`, on a registry with the schema's types
unfoldable pub derive_state : Option Closed → Option Takeoff → Outcome PlanError DerivedState
derive_state (some c) takeoff =
    if c.close_as == "superseded"
    then ok superseded
    else if c.close_as == "abandoned"
    then ok abandoned
    else if c.close_as == "completed"
    then ok completed
    else raise (unknown_close c.close_as)
derive_state none none = ok awaiting_approval
derive_state none (some t) = ok approved

-- `derive_state_str`, with the state in place of its text
unfoldable pub derive_plan_state : Plan → Outcome PlanError DerivedState
derive_plan_state p = elim p.versions [
  | [] ↦ raise no_versions
  | x ∷ xs ↦ derive_state p.closed p.takeoff
]

-- The session's directory: the session-relative path that a file resolves to if it lies inside,
-- whether it exists, and how many check assertions fail on it.
pub record Files : Type 0 where
  pub resolve : Text → Option Text
  pub exists : Text → Bool
  pub failures : Text → ℕ

pub record Store : Type 0 where
  pub plans : List Plan
  pub dirty : Bool
  pub broadcasts : List ℕ

pub record Reply : Type 0 where
  pub plan : ℕ
  pub version : Option ℕ
  pub state : DerivedState
