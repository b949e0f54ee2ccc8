-- ===== src/Messages/PageBodies.antt =====
-- src/core/message_projection.py with src/api/sessions.py: the rendered pages that a published
-- projection keeps.
--
-- `render` is the route's rendering of a page. A published projection never changes, so that an
-- append publishes another one, whose bodies start empty.
use claude_code_manager.Base.{
  ℕ, ◌≡◌, ◌↔◌, refl, sym, ap, Bool, true, ◌&&◌, Option, none, some, List, [], ◌∷◌, nat_eq,
  nat_eq_iff, Eq, max, min, subst, All, Option-cases, inl, inr, arith,
}
use claude_code_manager.Memo.{lookup, assign, move_to_end, evict}
use claude_code_manager.Memo.Entries.{All-assign, lookup_of_All, All-evict, All-move_to_end}
use claude_code_manager.Messages.Aggregator.{Event}
use claude_code_manager.Messages.Projection.{Projection, Page, slice_before, advanced}

abbrev pair_eq : ℕ × ℕ → ℕ × ℕ → Bool
pair_eq (a, b) (c, d) = nat_eq a c && nat_eq b d

pair_eq_iff : (x y : ℕ × ℕ) → (pair_eq x y ≡ true) ↔ (x ≡ y)
pair_eq_iff (a, b) (c, d) = ground (arith, nat_eq_iff a c, nat_eq_iff b d)

instance abbrev Pair_eq : Eq (ℕ × ℕ)
Pair_eq = record { beq = pair_eq; beq_iff = pair_eq_iff }

abbrev pub page_body_limit : ℕ
page_body_limit = 4

abbrev pub Bodies : Type 0 → Type 0
Bodies B = List ((ℕ × ℕ) × B)

module _ {B : Type 0} where
  unfoldable pub cached_page_body : ℕ → ℕ → Bodies B → Option B × Bodies B
  cached_page_body before limit bodies = elim (lookup (before, limit) bodies) [
    | none ↦ (none, bodies)
    | some body ↦ (some body, move_to_end (before, limit) bodies)
  ]

  unfoldable pub store_page_body : ℕ → ℕ → B → Bodies B → Bodies B
  store_page_body before limit body bodies =
      evict page_body_limit (assign (before, limit) body bodies)

pub record Published (B : Type 0) : Type 0 where
  pub view : Projection
  pub page_bodies : Bodies B

-- The limit of the route.
abbrev pub clamped : ℕ → ℕ
clamped limit = max 1 (min limit 200)

module _ {B : Type 0} (render : Page → B) where
  abbrev pub served : ℕ → ℕ → Published B → Option B × Bodies B → B × Published B
  served before limit p (some body, bodies) = (body, record p { page_bodies = bodies })
  served before limit p (none, bodies) =
      let body = render (slice_before before limit p.view) in
      (body, record p { page_bodies = store_page_body before limit body bodies })

  -- `get_session_events_page`, of a session without an archive
  unfoldable pub get_page : ℕ → ℕ → Published B → B × Published B
  get_page before limit p =
      served before (clamped limit) p (cached_page_body before (clamped limit) p.page_bodies)

  -- `advanced`, whose copy keeps no bodies
  unfoldable pub publish : List Event → Published B → Published B
  publish events p = record { view = advanced events p.view; page_bodies = [] }

pub data Step : Type 0 where
  request : ℕ → ℕ → Step
  append : List Event → Step

module _ {B : Type 0} (render : Page → B) where
  -- The bodies that the requests of a sequence of steps get.
  unfoldable pub bodies_served : List Step → Published B → List B
  bodies_served [] p = []
  bodies_served (request before limit ∷ steps) p =
      let (body, p') = get_page render before limit p in body ∷ bodies_served steps p'
  bodies_served (append events ∷ steps) p = bodies_served steps (publish render events p)

  -- What they get without any kept body.
  unfoldable pub bodies_rendered : List Step → Projection → List B
  bodies_rendered [] view = []
  bodies_rendered (request before limit ∷ steps) view =
      render (slice_before before (clamped limit) view) ∷ bodies_rendered steps view
  bodies_rendered (append events ∷ steps) view = bodies_rendered steps (advanced events view)

  -- Every kept body is the rendering of its page.
  abbrev IsPageOf : Projection → (ℕ × ℕ) × B → Type 0
  IsPageOf view x = x.1 ≡ render (slice_before x.0.0 x.0.1 view)

  IsGoodLookup : ℕ → ℕ → Published B → Option B × Bodies B → Type 0
  IsGoodLookup before limit p (none, bodies) = All (IsPageOf p.view) bodies
  IsGoodLookup before limit p (some body, bodies) =
      (body ≡ render (slice_before before limit p.view)) × All (IsPageOf p.view) bodies

  cached_page_body-IsGoodLookup :
      (before limit : ℕ) (p : Published B)
      → All (IsPageOf p.view) p.page_bodies
      → IsGoodLookup before limit p (cached_page_body before limit p.page_bodies)
  unfolding cached_page_body IsGoodLookup
  cached_page_body-IsGoodLookup before limit p h =
      elim (Option-cases (lookup (before, limit) p.page_bodies)) [
        | inl miss ↦
            let e : cached_page_body before limit p.page_bodies ≡ (none, p.page_bodies) =
              rw (miss, cached_page_body) refl in
            subst (IsGoodLookup before limit p) (sym e) h
        | inr (v, hit) ↦
            let moved : Bodies B = move_to_end (before, limit) p.page_bodies in
            let e : cached_page_body before limit p.page_bodies ≡ (some v, moved) =
              rw (hit, cached_page_body) refl in
            subst (IsGoodLookup before limit p) (sym e) (
              lookup_of_All (IsPageOf p.view) (before, limit) v p.page_bodies h hit,
              All-move_to_end (IsPageOf p.view) (before, limit) p.page_bodies h,
            )
      ]

  IsRightAnswer : ℕ → ℕ → Published B → B × Published B → Type 0
  IsRightAnswer before limit p (body, p') =
      (body ≡ render (slice_before before limit p.view))
      × (p'.view ≡ p.view)
      × All (IsPageOf p'.view) p'.page_bodies

  served-IsRightAnswer :
      (before limit : ℕ) (p : Published B) (found : Option B × Bodies B)
      → IsGoodLookup before limit p found
      → IsRightAnswer before limit p (served render before limit p found)
  unfolding IsGoodLookup IsRightAnswer store_page_body
  served-IsRightAnswer before limit p (none, bodies) h =
      let body : B = render (slice_before before limit p.view) in
      (
        refl,
        refl,
        All-evict (IsPageOf p.view) 4 (assign (before, limit) body bodies)
            (All-assign (IsPageOf p.view) (before, limit) body bodies h refl),
      )
  served-IsRightAnswer before limit p (some body, bodies) h = (h.0, refl, h.1)

  get_page-IsRightAnswer :
      (before limit : ℕ) (p : Published B)
      → All (IsPageOf p.view) p.page_bodies
      → IsRightAnswer before (clamped limit) p (get_page render before limit p)
  unfolding get_page
  get_page-IsRightAnswer before limit p h =
      served-IsRightAnswer before (clamped limit) p
        (cached_page_body before (clamped limit) p.page_bodies)
        (cached_page_body-IsGoodLookup before (clamped limit) p h)

  served-rendered :
      (steps : List Step) (p : Published B)
      → All (IsPageOf p.view) p.page_bodies
      → bodies_served steps p ≡ bodies_rendered steps p.view
  unfolding bodies_served bodies_rendered publish IsRightAnswer
  served-rendered [] p h = refl
  served-rendered (request before limit ∷ steps) p h =
      let (body, view, kept) = get_page-IsRightAnswer before limit p h in
      let p' : Published B = (get_page render before limit p).1 in
      let rest = served-rendered steps p' kept in let same = ap (bodies_rendered steps) view in cc
  served-rendered (append events ∷ steps) p h = served-rendered steps _ tt

  -- From a projection that has just been published, whatever pages are requested and whatever is
  -- appended in between: each request gets the rendering of the page that it names, of the
  -- projection as it is then.
  pub bodies_served-rendered :
      (steps : List Step) (view : Projection)
      → bodies_served steps (record { view = view; page_bodies = [] }) ≡ bodies_rendered steps view
  bodies_served-rendered steps view = served-rendered steps _ tt
