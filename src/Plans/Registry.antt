-- ===== src/Plans/Registry.antt =====
-- The invariant of the registry of src/core/plans.py, over every run of its verbs.
use claude_code_manager.Base.{
  ℕ, ◌+◌, ◌<◌, ◌≡◌, refl, sym, ◌∙◌, ap, true, false, Option, none, some, List, [], ◌∷◌, ◌++◌, map,
  String, Text, ◌==◌, Text_eq, All, All-append, arith, append_assoc, map-append, length,
  length-append, ok, subst, Bool-cases, Option-cases, inl, inr, ◌>>=◌, append-nil,
}
use claude_code_manager.Plans.{Version, Takeoff, Closed, Plan, Files}
use claude_code_manager.Plans.Paths.{normpath}
use claude_code_manager.Plans.Resolve.{Place, put_back, ids, find_version, find_binding_by_file}
use claude_code_manager.Plans.Verbs.{
  maximum, get_last?, version_numbers, new_plan, amended, close_modes, newest,
}
use claude_code_manager.Plans.Order.{
  Rising, Rising-snoc, Apart, Distinct, All-replace, All-left, All-right,
}

abbrev pub version_files : List Version → List Text
version_files = map (λ x. x.file)

-- The files that back the versions of the plans.
abbrev pub bound_files : List Plan → List Text
bound_files [] = []
bound_files (p ∷ ps) = version_files p.versions ++ bound_files ps

-- An approval is of the newest version.
abbrev pub ApprovesLatest : Option Takeoff → List Version → Type 0
ApprovesLatest none vs = Unit
ApprovesLatest (some t) vs = get_last? (version_numbers vs) ≡ some t.v

-- A plan is closed under one of the modes.
abbrev pub ClosedByMode : Option Closed → Type 0
ClosedByMode none = Unit
ClosedByMode (some c) = close_modes c.close_as ≡ true

pub record IsPlan (p : Plan) : Type 0 where
  pub rising : Rising 0 (version_numbers p.versions)
  pub some_version : 0 < length p.versions
  pub latest_approved : ApprovesLatest p.takeoff p.versions
  pub mode : ClosedByMode p.closed

pub record IsRegistry (plans : List Plan) : Type 0 where
  pub rising : Rising 0 (ids plans)
  pub each : All IsPlan plans
  pub files_normal : All (λ f. normpath f ≡ f) (bound_files plans)
  pub files_distinct : Distinct (bound_files plans)

-- What `Path.resolve` and `relative_to` return is a normal path.
abbrev pub NormalAnswer : Option Text → Type 0
NormalAnswer none = Unit
NormalAnswer (some file) = normpath file ≡ file

abbrev pub ResolvesNormal : Files → Type 0
ResolvesNormal fs = (asked : Text) → NormalAnswer (fs.resolve asked)

pub bound_files-append :
    (ps qs : List Plan) → bound_files (ps ++ qs) ≡ bound_files ps ++ bound_files qs
bound_files-append [] qs = refl
bound_files-append (p ∷ ps) qs =
    ap (◌++◌ (version_files p.versions)) (bound_files-append ps qs)
    ∙ sym (append_assoc (version_files p.versions) (bound_files ps) (bound_files qs))

-- A file that backs no version differs from every bound file.
find_version-Apart :
    (f : Text) (xs : List Version)
    → All (λ g. normpath g ≡ g) (version_files xs)
    → find_version f xs ≡ none
    → Apart f (version_files xs)
unfolding find_version
find_version-Apart f [] n h = tt
find_version-Apart f (x ∷ xs) n h = elim (Bool-cases (normpath x.file == f)) [
  | inl bound ↦ cc (rw bound at h)
  | inr free ↦ (subst (λ g. (g == f) ≡ false) n.0 free, find_version-Apart f xs n.1 (rw free at h))
]

pub find_binding-Apart :
    (f : Text) (ps : List Plan)
    → All (λ g. normpath g ≡ g) (bound_files ps)
    → find_binding_by_file f ps ≡ none
    → Apart f (bound_files ps)
unfolding find_binding_by_file
find_binding-Apart f [] n h = tt
find_binding-Apart f (p ∷ ps) n h = elim (Option-cases (find_version f p.versions)) [
  | inr (v, bound) ↦ cc (rw (bound, find_binding_by_file) at h)
  | inl free ↦
      All-append _ (version_files p.versions) (bound_files ps)
        (find_version-Apart f p.versions (All-left _ (version_files p.versions) _ n) free)
        (find_binding-Apart f ps (All-right _ (version_files p.versions) _ n)
          (rw (free, find_binding_by_file) at h))
]

-- A plan that keeps its id and takes the place of another.
pub ids-put_back :
    (before behind : List Plan) (p q : Plan)
    → q.id ≡ p.id
    → ids (before ++ (q ∷ behind)) ≡ ids (before ++ (p ∷ behind))
ids-put_back [] behind p q e = ap (λ n. n ∷ ids behind) e
ids-put_back (r ∷ before) behind p q e = ap (◌∷◌ r.id) (ids-put_back before behind p q e)

abbrev pub earlier_files : Place → List Text
earlier_files l = bound_files l.before ++ version_files l.plan.versions

pub bound_files-place :
    (l : Place) (p : Plan) (more : List Text)
    → version_files p.versions ≡ version_files l.plan.versions ++ more
    → bound_files (put_back l p) ≡ earlier_files l ++ (more ++ bound_files l.behind)
bound_files-place l p more e =
    bound_files-append l.before (p ∷ l.behind)
    ∙ ap (λ fs. bound_files l.before ++ (fs ++ bound_files l.behind)) e
    ∙ ap (◌++◌ (bound_files l.before))
        (append_assoc (version_files l.plan.versions) more (bound_files l.behind))
    ∙ sym (
        append_assoc (bound_files l.before) (version_files l.plan.versions)
          (more ++ bound_files l.behind))

get_last?-version_numbers :
    (xs : List Version) (x : Version)
    → get_last? xs ≡ some x
    → get_last? (version_numbers xs) ≡ some x.v
get_last?-version_numbers [] x h = cc
get_last?-version_numbers (y ∷ []) x h = ground arith
get_last?-version_numbers (y ∷ z ∷ xs) x h = get_last?-version_numbers (z ∷ xs) x h

newest_above :
    (xs : List Version) (v : ℕ)
    → (newest xs >>= λ m. ok (m + 1)) ≡ ok v
    → (maximum (version_numbers xs) < v) × (0 < v)
unfolding newest
newest_above [] v h = cc
newest_above (x ∷ xs) v h = ground arith

pub IsPlan-new :
    (now title file : Text) (base : Option Text) (n : ℕ) → IsPlan (new_plan now title base file n)
unfolding new_plan
IsPlan-new now title file base n = record {
  rising = omega arith;
  some_version = omega arith;
  latest_approved = tt;
  mode = tt;
}

pub IsPlan-amended :
    (x : Version) (p : Plan)
    → (newest p.versions >>= λ m. ok (m + 1)) ≡ ok x.v
    → IsPlan p
    → IsPlan (amended x p)
unfolding amended
IsPlan-amended x p top h =
    let (above, positive) = newest_above p.versions x.v top in
    record {
      rising =
          rw (map-append) (Rising-snoc 0 x.v (version_numbers p.versions) h.rising positive above);
      some_version = omega (arith, length-append p.versions (x ∷ []));
      latest_approved = tt;
      mode = h.mode;
    }

pub IsPlan-approved :
    (x : Version) (p : Plan) (now : Text)
    → get_last? p.versions ≡ some x
    → IsPlan p
    → IsPlan (record p { takeoff = some (record { v = x.v; at = now }) })
IsPlan-approved x p now last h = record {
  rising = h.rising;
  some_version = h.some_version;
  latest_approved = get_last?-version_numbers p.versions x last;
  mode = h.mode;
}

pub IsPlan-closed :
    (p : Plan) (close_as : String) (now : Text)
    → close_modes close_as ≡ true
    → IsPlan p
    → IsPlan (record p { closed = some (record { close_as = close_as; at = now }) })
IsPlan-closed p close_as now allowed h = record {
  rising = h.rising;
  some_version = h.some_version;
  latest_approved = h.latest_approved;
  mode = allowed;
}

-- To change the plan at a place and none of its files.
pub IsRegistry-place :
    (l : Place) (p : Plan)
    → p.id ≡ l.plan.id
    → p.versions ≡ l.plan.versions
    → (IsPlan l.plan → IsPlan p)
    → IsRegistry (put_back l l.plan)
    → IsRegistry (put_back l p)
IsRegistry-place l p same_id same_versions keep h =
    let same : bound_files (put_back l p) ≡ bound_files (put_back l l.plan) =
      bound_files-place l p [] (ap version_files same_versions ∙ sym (append-nil _))
      ∙ sym (bound_files-place l l.plan [] (sym (append-nil _))) in
    record {
      rising = rw (ids-put_back l.before l.behind l.plan p same_id) h.rising;
      each = All-replace IsPlan l.before l.behind l.plan p keep h.each;
      files_normal = rw same h.files_normal;
      files_distinct = rw same h.files_distinct;
    }
