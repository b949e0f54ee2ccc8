-- ===== src/Plans/Histories.antt =====
-- Runs of the verbs of src/core/plans.py: what a session's registry keeps, and what never changes.
use claude_code_manager.Base.{
  ℕ, ◌+◌, ◌≡◌, refl, sym, Bool, false, Option, List, [], ◌∷◌, ◌++◌, Text, All, All-append, arith,
  map-append, subst, Outcome-cases, inl, inr, append-nil,
}
use claude_code_manager.Plans.{Version, Plan, Files, Store}
use claude_code_manager.Plans.Paths.{normpath}
use claude_code_manager.Plans.Resolve.{Place, put_back, ids}
use claude_code_manager.Plans.Verbs.{maximum, new_plan, amended, Verb, draft, perform, save}
use claude_code_manager.Plans.Lifecycle.{
  IsNew, Edit, presented, revised, granted, finished, draft-Edit,
}
use claude_code_manager.Plans.Order.{
  Rising-snoc, Distinct-insert, All-insert, All-replace, Distinct, Apart,
}
use claude_code_manager.Plans.Registry.{
  IsPlan, IsRegistry, NormalAnswer, ResolvesNormal, bound_files, find_binding-Apart,
  bound_files-append, bound_files-place, earlier_files, IsPlan-new, IsPlan-amended, IsPlan-approved,
  IsPlan-closed, IsRegistry-place, ids-put_back,
}

new_file-normal :
    (fs : Files) (file : Text) (plans : List Plan)
    → ResolvesNormal fs
    → IsNew fs file plans
    → normpath file ≡ file
new_file-normal fs file plans normal new = subst NormalAnswer new.resolves (normal new.asked)

presented-IsRegistry :
    (fs : Files) (now title file : Text) (base : Option Text) (plans : List Plan)
    → ResolvesNormal fs
    → IsNew fs file plans
    → IsRegistry plans
    → IsRegistry (plans ++ new_plan now title base file (maximum (ids plans) + 1) ∷ [])
presented-IsRegistry fs now title file base plans normal new h =
    let p = new_plan now title base file (maximum (ids plans) + 1) in
    let files : bound_files (plans ++ p ∷ []) ≡ bound_files plans ++ file ∷ [] =
      unfold new_plan in bound_files-append plans (p ∷ []) in
    let apart : Apart file (bound_files plans ++ []) =
      rw append-nil (find_binding-Apart file plans h.files_normal new.unbound) in
    record {
      rising = rw (map-append) (
          unfold new_plan in
          Rising-snoc 0 (maximum (ids plans) + 1) (ids plans) h.rising (omega arith) (omega arith));
      each = All-append IsPlan plans _ h.each (IsPlan-new now title file base _, tt);
      files_normal = rw files (
          All-append _ (bound_files plans) _ h.files_normal
            (new_file-normal fs file plans normal new, tt));
      files_distinct =
          rw files
            (Distinct-insert file (bound_files plans) [] apart (rw append-nil h.files_distinct));
    }

revised-IsRegistry :
    (fs : Files) (l : Place) (x : Version)
    → ResolvesNormal fs
    → IsNew fs x.file (put_back l l.plan)
    → (IsPlan l.plan → IsPlan (amended x l.plan))
    → IsRegistry (put_back l l.plan)
    → IsRegistry (put_back l (amended x l.plan))
revised-IsRegistry fs l x normal new keep h =
    let old : bound_files (put_back l l.plan) ≡ earlier_files l ++ bound_files l.behind =
      bound_files-place l l.plan [] (sym (append-nil _)) in
    let files : bound_files (put_back l (amended x l.plan))
        ≡ earlier_files l ++ (x.file ∷ bound_files l.behind) =
      bound_files-place l (amended x l.plan) (x.file ∷ [])
        (unfold amended in map-append _ l.plan.versions (x ∷ [])) in
    let apart = find_binding-Apart x.file (put_back l l.plan) h.files_normal new.unbound in
    record {
      rising =
          rw (ids-put_back l.before l.behind l.plan (amended x l.plan) (unfold amended in refl))
            h.rising;
      each = All-replace IsPlan l.before l.behind l.plan (amended x l.plan) keep h.each;
      files_normal = rw files (
          All-insert _ (earlier_files l) (bound_files l.behind) x.file
            (new_file-normal fs x.file _ normal new)
            (subst (All (λ f. normpath f ≡ f)) old h.files_normal));
      files_distinct = rw files (
          Distinct-insert x.file (earlier_files l) (bound_files l.behind)
            (subst (Apart x.file) old apart) (subst Distinct old h.files_distinct));
    }

-- A legal change keeps the invariant.
pub Edit-IsRegistry :
    (fs : Files) (plans plans' : List Plan) (q : Plan)
    → ResolvesNormal fs
    → Edit fs plans plans' q
    → IsRegistry plans
    → IsRegistry plans'
Edit-IsRegistry fs plans plans' q normal (presented now title file base new eq e) h =
    rw (e, eq) (presented-IsRegistry fs now title file base plans normal new h)
Edit-IsRegistry fs plans plans' q normal (revised l x at c top allowed new eq e) h =
    rw (e, eq)
      (revised-IsRegistry fs l x normal (subst (IsNew fs x.file) at new)
        (IsPlan-amended x l.plan top) (subst IsRegistry at h))
Edit-IsRegistry fs plans plans' q normal (granted l x now at c t last eq e) h =
    rw (e, eq)
      (IsRegistry-place l _ refl refl (IsPlan-approved x l.plan now last) (subst IsRegistry at h))
Edit-IsRegistry fs plans plans' q normal (finished l close_as now at c allowed eq e) h =
    rw (e, eq)
      (IsRegistry-place l _ refl refl (IsPlan-closed l.plan close_as now allowed)
        (subst IsRegistry at h))

-- One call of a verb: the session's files as they are then, the time, and the verb.
pub record Request : Type 0 where
  pub files : Files
  pub now : Text
  pub verb : Verb

abbrev pub handle : (ℕ → Bool) → Request → Store → Store
handle space r s = (perform r.files space r.now r.verb s).1

unfoldable pub handle_all : (ℕ → Bool) → List Request → Store → Store
handle_all space [] s = s
handle_all space (r ∷ rs) s = handle_all space rs (handle space r s)

abbrev pub empty_store : Store
empty_store = record { plans = []; dirty = false; broadcasts = [] }

pub perform-IsRegistry :
    (fs : Files) (space : ℕ → Bool) (now : Text) (verb : Verb) (s : Store)
    → ResolvesNormal fs
    → IsRegistry s.plans
    → IsRegistry (perform fs space now verb s).1.plans
unfolding perform save
perform-IsRegistry fs space now verb s normal h =
    elim (Outcome-cases (draft fs space now verb s.plans)) [
      | inl (d, drafted) ↦
          rw (drafted, save)
            (Edit-IsRegistry fs s.plans d.plans d.plan normal
              (draft-Edit fs space now verb s.plans d drafted) h)
      | inr (e, raised) ↦ rw (raised, save) h
    ]

handle_all-IsRegistry_from :
    (space : ℕ → Bool) (requests : List Request) (s : Store)
    → All (λ r. ResolvesNormal r.files) requests
    → IsRegistry s.plans
    → IsRegistry (handle_all space requests s).plans
unfolding handle_all
handle_all-IsRegistry_from space [] s normal h = h
handle_all-IsRegistry_from space (r ∷ rs) s normal h =
    handle_all-IsRegistry_from space rs (handle space r s) normal.1
      (perform-IsRegistry r.files space r.now r.verb s normal.0 h)

-- Whatever verbs are called on a session that starts with no plans, failing or not: the ids rise,
-- every plan has versions whose numbers rise, an approval is of the newest version, a closing has
-- one of the three modes, and no file backs two versions.
pub handle_all-IsRegistry :
    (space : ℕ → Bool) (requests : List Request)
    → All (λ r. ResolvesNormal r.files) requests
    → IsRegistry (handle_all space requests empty_store).plans
handle_all-IsRegistry space requests normal =
    handle_all-IsRegistry_from space requests empty_store normal
      (record { rising = tt; each = tt; files_normal = tt; files_distinct = tt })
