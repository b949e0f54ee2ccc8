-- ===== src/Plans/Tests.antt =====
-- The verbs of src/core/plans.py on a small session.
use claude_code_manager.Base.{
  ℕ, ◌≡◌, refl, Bool, true, none, some, List, [], ◌∷◌, codes, Text_eq, ◌==◌, nat_eq, if◌then◌else◌,
  ok, All, inl, inr, Bool-cases,
}
use claude_code_manager.Plans.{Plan, Files, derive_state, derive_plan_state}
use claude_code_manager.Plans.Paths.{normpath}
use claude_code_manager.Plans.Resolve.{
  locate, require_plan, check_open, require_open_plan, is_candidate, only_candidate,
  resolve_for_amend, resolve_for_approve, check_unapproved, find_version, find_binding_by_file,
  validate_file_in_session_dir, check_unbound, validate_new_version_file,
}
use claude_code_manager.Plans.Verbs.{
  new_plan, amended, amend_triggers, close_modes, has_note, newest, latest, draft_present,
  draft_amend, draft_approve, check_unclosed, draft_close, save, Verb, present, amend, approve,
  close, draft, perform,
}
use claude_code_manager.Plans.Lifecycle.{Edit, draft-Edit}
use claude_code_manager.Plans.Registry.{IsRegistry, ResolvesNormal}
use claude_code_manager.Plans.Histories.{Request, handle_all, empty_store, handle_all-IsRegistry}
use claude_code_manager.Plans.Evolution.{AllEvolve, handle_all-AllEvolve}
use claude_code_manager.Plans.Replies.{Answers, perform-answers}

-- Two files lie in the session's directory.
abbrev two_files : Files
two_files = record {
  resolve = λ f.
      if f == codes "a.html"
      then some (codes "a.html")
      else if f == codes "b.html"
      then some (codes "b.html")
      else none;
  exists = λ f. true;
  failures = λ f. 0;
}

two_files-normal : ResolvesNormal two_files
unfolding normpath
two_files-normal f = elim (Bool-cases (f == codes "a.html")) [
  | inl a ↦ rw a refl
  | inr other ↦
      rw other (elim (Bool-cases (f == codes "b.html")) [
        | inl b ↦ rw b refl
        | inr neither ↦ rw neither tt
      ])
]

abbrev space : ℕ → Bool
space c = nat_eq c b' '

abbrev ask : Verb → Request
ask verb = record { files = two_files; now = codes "t"; verb = verb }

abbrev requests : List Request
requests =
    ask (present (codes "./a.html") (codes "A") none)
    ∷ ask (present (codes "a.html") (codes "again") none)
    ∷ ask (approve none)
    ∷ ask (amend (codes "b.html") (some 1) "feedback" none (some (codes "why")))
    ∷ ask (approve none)
    ∷ ask (close 1 "completed")
    ∷ ask (approve (some 1))
    ∷ []

requests-normal : All (λ r. ResolvesNormal r.files) requests
requests-normal = (
  two_files-normal,
  (
    two_files-normal,
    (
      two_files-normal,
      (two_files-normal, (two_files-normal, (two_files-normal, (two_files-normal, tt)))),
    ),
  ),
)

-- The calls that change the registry are the first and the middle four.
requests_broadcasts : (handle_all space requests empty_store).broadcasts ≡ 1 ∷ 1 ∷ 1 ∷ 1 ∷ 1 ∷ []
unfolding handle_all perform save draft draft_present draft_amend draft_approve draft_close new_plan
    amended amend_triggers close_modes has_note newest latest check_unclosed
    validate_new_version_file validate_file_in_session_dir check_unbound find_binding_by_file
    find_version normpath resolve_for_amend resolve_for_approve only_candidate is_candidate
    require_open_plan require_plan check_open check_unapproved locate derive_plan_state derive_state
requests_broadcasts = refl

handle_all-IsRegistry_example : IsRegistry (handle_all space requests empty_store).plans
handle_all-IsRegistry_example = handle_all-IsRegistry space requests requests-normal

handle_all-AllEvolve_example :
    AllEvolve
      (handle_all space requests empty_store).plans
      (handle_all space requests (handle_all space requests empty_store)).plans
handle_all-AllEvolve_example =
    handle_all-AllEvolve space requests (handle_all space requests empty_store)

abbrev first_plan : Plan
first_plan = new_plan (codes "t") (codes "A") none (codes "a.html") 1

first_draft :
    draft two_files space (codes "t") (present (codes "./a.html") (codes "A") none) []
    ≡ ok (record { plans = first_plan ∷ []; plan = first_plan; version = some 1 })
unfolding draft draft_present validate_new_version_file validate_file_in_session_dir check_unbound
    find_binding_by_file normpath
first_draft = refl

draft-Edit_example : Edit two_files [] (first_plan ∷ []) first_plan
draft-Edit_example =
    draft-Edit two_files space (codes "t") (present (codes "./a.html") (codes "A") none) []
      (record { plans = first_plan ∷ []; plan = first_plan; version = some 1 }) first_draft

perform-answers_example :
    Answers
      (approve none)
      (handle_all space requests empty_store)
      (perform two_files space (codes "t") (approve none) (handle_all space requests empty_store))
perform-answers_example =
    perform-answers two_files space (codes "t") (approve none)
      (handle_all space requests empty_store) (handle_all-IsRegistry space requests requests-normal)
