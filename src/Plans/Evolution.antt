-- ===== src/Plans/Evolution.antt =====
-- What a later state of the registry of src/core/plans.py may differ in from an earlier one.
use claude_code_manager.Base.{
  ℕ, ◌≡◌, refl, sym, ◌∙◌, ap, Bool, Option, none, some, List, [], ◌∷◌, ◌++◌, subst, append-nil,
  append_assoc, Outcome-cases, inl, inr,
}
use claude_code_manager.Plans.{Version, Closed, Plan, Files, Store}
use claude_code_manager.Plans.Verbs.{amended, draft, perform, save}
use claude_code_manager.Plans.Lifecycle.{Edit, presented, revised, granted, finished, draft-Edit}
use claude_code_manager.Plans.Histories.{Request, handle, handle_all}

-- A plan that is closed is as it was.
abbrev pub KeptIfClosed : Option Closed → Plan → Plan → Type 0
KeptIfClosed none p q = Unit
KeptIfClosed (some c) p q = q ≡ p

-- The plan `q` is a later state of `p`: its identity stands, its versions are those of `p` and
-- more, and a closed plan is as it was.
pub record Evolves (p q : Plan) : Type 0 where
  pub id : q.id ≡ p.id
  pub title : q.title ≡ p.title
  pub more : List Version
  pub versions : q.versions ≡ p.versions ++ more
  pub terminal : KeptIfClosed p.closed p q

KeptIfClosed-refl : (o : Option Closed) (p : Plan) → KeptIfClosed o p p
KeptIfClosed-refl none p = tt
KeptIfClosed-refl (some c) p = refl

KeptIfClosed-trans :
    (o : Option Closed) (p q r : Plan)
    → p.closed ≡ o
    → KeptIfClosed o p q
    → KeptIfClosed q.closed q r
    → KeptIfClosed o p r
KeptIfClosed-trans none p q r e f g = tt
KeptIfClosed-trans (some c) p q r e f g =
    subst (λ o. KeptIfClosed o q r) (ap (λ (x : Plan). x.closed) f ∙ e) g ∙ f

Evolves-refl : (p : Plan) → Evolves p p
Evolves-refl p = record {
  id = refl;
  title = refl;
  more = [];
  versions = sym (append-nil p.versions);
  terminal = KeptIfClosed-refl p.closed p;
}

Evolves-trans : (p q r : Plan) → Evolves p q → Evolves q r → Evolves p r
Evolves-trans p q r f g = record {
  id = g.id ∙ f.id;
  title = g.title ∙ f.title;
  more = f.more ++ g.more;
  versions =
      g.versions ∙ ap (λ vs. vs ++ g.more) f.versions ∙ append_assoc p.versions f.more g.more;
  terminal = KeptIfClosed-trans p.closed p q r refl f.terminal g.terminal;
}

-- An open plan may take any state with its identity and its versions.
Evolves-open :
    (p q : Plan) (more : List Version)
    → p.closed ≡ none
    → q.id ≡ p.id
    → q.title ≡ p.title
    → q.versions ≡ p.versions ++ more
    → Evolves p q
Evolves-open p q more unclosed same_id same_title grown = record {
  id = same_id;
  title = same_title;
  more = more;
  versions = grown;
  terminal = rw unclosed tt;
}

-- Every plan of the older list stands in the newer one, at its place, in a later state.
abbrev pub AllEvolve : List Plan → List Plan → Type 0
AllEvolve [] qs = Unit
AllEvolve (p ∷ ps) [] = ⊥
AllEvolve (p ∷ ps) (q ∷ qs) = Evolves p q × AllEvolve ps qs

AllEvolve-refl : (ps : List Plan) → AllEvolve ps ps
AllEvolve-refl [] = tt
AllEvolve-refl (p ∷ ps) = (Evolves-refl p, AllEvolve-refl ps)

AllEvolve-trans : (ps qs rs : List Plan) → AllEvolve ps qs → AllEvolve qs rs → AllEvolve ps rs
AllEvolve-trans [] qs rs f g = tt
AllEvolve-trans (p ∷ ps) [] rs f g = absurd f
AllEvolve-trans (p ∷ ps) (q ∷ qs) [] f g = absurd g
AllEvolve-trans (p ∷ ps) (q ∷ qs) (r ∷ rs) f g =
    (Evolves-trans p q r f.0 g.0, AllEvolve-trans ps qs rs f.1 g.1)

AllEvolve-append : (ps new : List Plan) → AllEvolve ps (ps ++ new)
AllEvolve-append [] new = tt
AllEvolve-append (p ∷ ps) new = (Evolves-refl p, AllEvolve-append ps new)

AllEvolve-place :
    (before behind : List Plan) (p q : Plan)
    → Evolves p q
    → AllEvolve (before ++ (p ∷ behind)) (before ++ (q ∷ behind))
AllEvolve-place [] behind p q f = (f, AllEvolve-refl behind)
AllEvolve-place (x ∷ before) behind p q f = (Evolves-refl x, AllEvolve-place before behind p q f)

Edit-AllEvolve :
    (fs : Files) (plans plans' : List Plan) (q : Plan)
    → Edit fs plans plans' q
    → AllEvolve plans plans'
Edit-AllEvolve fs plans plans' q (presented now title file base new eq e) =
    rw e (AllEvolve-append plans (q ∷ []))
Edit-AllEvolve fs plans plans' q (revised l x at c top allowed new eq e) =
    rw (e, at)
      (AllEvolve-place l.before l.behind l.plan q (
        Evolves-open l.plan q (x ∷ []) c (rw eq (unfold amended in refl))
          (rw eq (unfold amended in refl)) (rw eq (unfold amended in refl))))
Edit-AllEvolve fs plans plans' q (granted l x now at c t last eq e) =
    rw (e, at)
      (AllEvolve-place l.before l.behind l.plan q
        (Evolves-open l.plan q [] c (rw eq) (rw eq) (rw eq (sym (append-nil l.plan.versions)))))
Edit-AllEvolve fs plans plans' q (finished l close_as now at c allowed eq e) =
    rw (e, at)
      (AllEvolve-place l.before l.behind l.plan q
        (Evolves-open l.plan q [] c (rw eq) (rw eq) (rw eq (sym (append-nil l.plan.versions)))))

handle-AllEvolve :
    (space : ℕ → Bool) (r : Request) (s : Store) → AllEvolve s.plans (handle space r s).plans
unfolding perform save
handle-AllEvolve space r s = elim (Outcome-cases (draft r.files space r.now r.verb s.plans)) [
  | inl (d, drafted) ↦
      rw (drafted, save, handle, perform)
        (Edit-AllEvolve r.files s.plans d.plans d.plan
          (draft-Edit r.files space r.now r.verb s.plans d drafted))
  | inr (e, raised) ↦ rw (raised, save, handle, perform) (AllEvolve-refl s.plans)
]

-- No run of the verbs removes or moves a plan, changes its id or title, or rewrites a version; and
-- once a plan is closed, nothing of it changes.
pub handle_all-AllEvolve :
    (space : ℕ → Bool) (requests : List Request) (s : Store)
    → AllEvolve s.plans (handle_all space requests s).plans
unfolding handle_all
handle_all-AllEvolve space [] s = AllEvolve-refl s.plans
handle_all-AllEvolve space (r ∷ rs) s =
    AllEvolve-trans s.plans (handle space r s).plans _ (handle-AllEvolve space r s)
      (handle_all-AllEvolve space rs (handle space r s))
