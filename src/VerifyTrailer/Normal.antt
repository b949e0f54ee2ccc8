-- ===== src/VerifyTrailer/Normal.antt =====
-- The normal form of a line of src/core/verify_trailer.py.
use claude_code_manager.Base.{
  ℕ, zero, suc, ◌<◌, ◌≡◌, ◌⊎◌, refl, sym, ◌∙◌, ap, subst, Bool, true, false, ◌||◌, [], ◌∷◌, ◌++◌,
  reverse, length, Text, Text_eq, ◌==◌, strip, lstrip, arith, Bool-cases, inl, inr, reverse-reverse,
  reverse-append, length-append, All, All-append, append_assoc, append-nil, text_eq_iff, All-map_of,
}
use claude_code_manager.VerifyTrailer.{is_wrapper, strip_wrappers, normalize_loop, normalize_line}

abbrev AllOf : (ℕ → Bool) → Text → Type 0
AllOf p s = All (λ c. p c ≡ true) s

-- A text with characters of a set taken from its ends.
pub record IsStripped (p : ℕ → Bool) (s r : Text) : Type 0 where
  pub before : Text
  pub behind : Text
  pub parts : s ≡ before ++ (r ++ behind)
  pub before_in : All (λ c. p c ≡ true) before
  pub behind_in : All (λ c. p c ≡ true) behind

lstrip_parts : (p : ℕ → Bool) (s : Text) → (a : Text) × (s ≡ a ++ lstrip p s) × AllOf p a
lstrip_parts p [] = ([], refl, tt)
lstrip_parts p (c ∷ s) = elim (Bool-cases (p c)) [
  | inl h ↦ let (a, e, all) = lstrip_parts p s in (c ∷ a, rw (h) (ap (◌∷◌ c) e), (h, all))
  | inr h ↦ ([], rw (h) refl, tt)
]

reverse-AllOf : (p : ℕ → Bool) (s : Text) → AllOf p s → AllOf p (reverse s)
reverse-AllOf p [] h = tt
reverse-AllOf p (c ∷ s) h =
    subst (AllOf p) (sym (reverse-append (c ∷ []) s))
      (All-append (λ d. p d ≡ true) (reverse s) (c ∷ []) (reverse-AllOf p s h.1) (h.0, tt))

strip-IsStripped : (p : ℕ → Bool) (s : Text) → IsStripped p s (strip p s)
strip-IsStripped p s =
    let (a, e, in_a) = lstrip_parts p s in
    let t = lstrip p s in
    let (b, f, in_b) = lstrip_parts p (reverse t) in
    record {
      before = a;
      behind = reverse b;
      parts =
          e
          ∙ ap (λ l. a ++ l)
              (sym (reverse-reverse t) ∙ ap reverse f ∙ reverse-append b (lstrip p (reverse t)));
      before_in = in_a;
      behind_in = reverse-AllOf p b in_b;
    }

IsStripped-trans :
    (p q u : ℕ → Bool) (s t r : Text)
    → ((c : ℕ) → p c ≡ true → u c ≡ true)
    → ((c : ℕ) → q c ≡ true → u c ≡ true)
    → IsStripped p s t
    → IsStripped q t r
    → IsStripped u s r
IsStripped-trans p q u s t r pu qu h k = record {
  before = h.before ++ k.before;
  behind = k.behind ++ h.behind;
  parts =
      h.parts
      ∙ ap (λ l. h.before ++ (l ++ h.behind)) k.parts
      ∙ ap (λ l. h.before ++ l)
          (append_assoc k.before (r ++ k.behind) h.behind
            ∙ ap (λ l. k.before ++ l) (append_assoc r k.behind h.behind))
      ∙ sym (append_assoc h.before k.before (r ++ (k.behind ++ h.behind)));
  before_in =
      All-append (λ c. u c ≡ true) h.before k.before
        (All-map_of (λ c. p c ≡ true) (λ c. u c ≡ true) h.before pu h.before_in)
        (All-map_of (λ c. q c ≡ true) (λ c. u c ≡ true) k.before qu k.before_in);
  behind_in =
      All-append (λ c. u c ≡ true) k.behind h.behind
        (All-map_of (λ c. q c ≡ true) (λ c. u c ≡ true) k.behind qu k.behind_in)
        (All-map_of (λ c. p c ≡ true) (λ c. u c ≡ true) h.behind pu h.behind_in);
}

shorter_parts :
    (before behind r s : Text) → s ≡ before ++ (r ++ behind) → (r ≡ s) ⊎ (length r < length s)
shorter_parts [] [] r s h = inl (sym (h ∙ append-nil r))
shorter_parts [] (c ∷ b) r s h = inr (omega (arith, ap length h, length-append r (c ∷ b)))
shorter_parts (c ∷ a) b r s h =
    inr (omega (arith, ap length h, length-append a (r ++ b), length-append r b))

-- What is taken from leaves it shorter, or as it was.
IsStripped-shorter :
    (p : ℕ → Bool) (s r : Text) → IsStripped p s r → (r ≡ s) ⊎ (length r < length s)
IsStripped-shorter p s r h = shorter_parts h.before h.behind r s h.parts

differs : (s t : Text) → (t == s) ≡ false → (t ≡ s) ⊎ (length t < length s) → length t < length s
differs s t h (inl e) = absurd (ground (arith, sym h ∙ (text_eq_iff t s).1 e))
differs s t h (inr l) = l

self-IsStripped : (p : ℕ → Bool) (s : Text) → IsStripped p s s
self-IsStripped p s = record {
  before = [];
  behind = [];
  parts = sym (append-nil s);
  before_in = tt;
  behind_in = tt;
}

module _ (is_space : ℕ → Bool) where
  -- A space or a wrapper.
  abbrev pub is_outer : ℕ → Bool
  is_outer c = is_space c || is_wrapper c

  outer_space : (c : ℕ) → is_space c ≡ true → is_outer c ≡ true
  outer_space c h = ground (arith, h)

  outer_wrapper : (c : ℕ) → is_wrapper c ≡ true → is_outer c ≡ true
  outer_wrapper c h = ground (arith, h)

  strip_wrappers-IsStripped : (s : Text) → IsStripped is_outer s (strip_wrappers is_space s)
  strip_wrappers-IsStripped s =
      IsStripped-trans is_wrapper is_space is_outer s (strip is_wrapper s)
        (strip_wrappers is_space s) outer_wrapper outer_space (strip-IsStripped is_wrapper s)
        (strip-IsStripped is_space (strip is_wrapper s))

  -- The normal form of a text: taken from its ends, and a fixed point.
  pub record IsNormal (s r : Text) : Type 0 where
    pub stripped : IsStripped is_outer s r
    pub fixed : strip_wrappers is_space r ≡ r

  normalize_loop-IsNormal :
      (fuel : ℕ) (s : Text) → length s < fuel → IsNormal s (normalize_loop is_space fuel s)
  unfolding normalize_loop
  normalize_loop-IsNormal zero s h = absurd (omega (arith, h))
  normalize_loop-IsNormal (suc fuel) s h = elim (Bool-cases (strip_wrappers is_space s == s)) [
    | inl e ↦ rw (e) (record {
      stripped = self-IsStripped is_outer s;
      fixed = (text_eq_iff (strip_wrappers is_space s) s).0 e;
    })
    | inr e ↦
        let t = strip_wrappers is_space s in
        let shorter =
          differs s t e (IsStripped-shorter is_outer s t (strip_wrappers-IsStripped s)) in
        let found = normalize_loop-IsNormal fuel t (omega (arith, h, shorter)) in
        rw (e) (record {
          stripped =
              IsStripped-trans is_outer is_outer is_outer s t _ (λ c i. i) (λ c i. i)
                (strip_wrappers-IsStripped s) found.stripped;
          fixed = found.fixed;
        })
  ]

  -- A line is normalised to a text that lies within it, with nothing but spaces and wrappers around
  -- it, and that the stripping leaves as it is: the loop comes to its end.
  pub normalize_line-IsNormal : (line : Text) → IsNormal line (normalize_line is_space line)
  unfolding normalize_line
  normalize_line-IsNormal line =
      let s = strip is_space line in
      let found = normalize_loop-IsNormal (suc (length s)) s (omega arith) in
      record {
        stripped =
            IsStripped-trans is_space is_outer is_outer line s _ outer_space (λ c h. h)
              (strip-IsStripped is_space line) found.stripped;
        fixed = found.fixed;
      }
