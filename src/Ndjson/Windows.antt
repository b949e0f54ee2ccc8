-- ===== src/Ndjson/Windows.antt =====
-- One window of the walk from the end of src/core/ndjson.py: the lines that it closes.
use claude_code_manager.Base.{
  ℕ, suc, ◌≡◌, refl, sym, ◌∙◌, ap, subst, true, false, Option, none, some, List, [], ◌∷◌, ◌++◌,
  reverse, take, drop, Text, arith, append_assoc, append-nil, reverse-append,
}
use claude_code_manager.Ndjson.{
  newline, newlines, split, join, rfind, events, Json, parse_ndjson_line, iter_ndjson_events,
  closed_lines, cut_first, segment_at,
}
use claude_code_manager.Ndjson.Lines.{
  newlines-append, split_shape, split_one, split-newline, split-append, split_head-newlines,
  IsLastNewline, rfind-none, rfind-IsLastNewline,
}

module _ {V : Type 0} (json : Json V) where
  pub events-append :
      (xs ys : List Text) → events json (xs ++ ys) ≡ events json xs ++ events json ys
  unfolding iter_ndjson_events
  events-append [] ys = refl
  events-append (x ∷ xs) ys = ground (arith, events-append xs ys)

  -- The events of lines, the last line first.
  abbrev pub back : List Text → List V
  back ls = events json (reverse ls)

  pub back-append : (xs ys : List Text) → back (xs ++ ys) ≡ back ys ++ back xs
  back-append xs ys = rw (reverse-append xs ys) (events-append (reverse ys) (reverse xs))

  -- The line that spans the end of the window may be empty, which no event comes of.
  pub back-closed_lines :
      (lines : List Text) (v : Text) (pending : List Text)
      → back (closed_lines lines v pending) ≡ back (lines ++ (v ++ join pending) ∷ [])
  unfolding iter_ndjson_events parse_ndjson_line
  back-closed_lines lines [] [] = sym (back-append lines ([] ∷ []))
  back-closed_lines lines (c ∷ v) [] = rw (append-nil v) refl
  back-closed_lines lines v (p ∷ ps) = refl

  pub closed_lines-cons :
      (l : Text) (lines : List Text) (v : Text) (pending : List Text)
      → closed_lines (l ∷ lines) v pending ≡ l ∷ closed_lines lines v pending
  closed_lines-cons l lines [] [] = refl
  closed_lines-cons l lines (c ∷ v) [] = refl
  closed_lines-cons l lines v (p ∷ ps) = refl

  -- What a step yields, and what it leaves, against the text from `a` on.
  abbrev pub Yields : Text → List Text × List Text → Text → Type 0
  Yields a (lines, left) text =
      (newlines (join left) ≡ 0)
      × (events json lines ++ back (split (a ++ join left)) ≡ back (split (a ++ text)))

  -- The lines of a text around a newline that none follows.
  pub split_around :
      (a u v p : Text)
      → newlines (v ++ p) ≡ 0
      → split (a ++ ((u ++ newline ∷ v) ++ p)) ≡ split (a ++ u) ++ (v ++ p) ∷ []
  split_around a u v p h =
      ap split (
        ap (λ t. a ++ t) (append_assoc u (newline ∷ v) p)
        ∙ sym (append_assoc a u (newline ∷ (v ++ p))))
      ∙ split-newline (a ++ u) (v ++ p)
      ∙ ap (λ ls. split (a ++ u) ++ ls) (split_one (v ++ p) h)

  pub cut_first-Yields :
      (a u v : Text) (pending : List Text)
      → newlines (v ++ join pending) ≡ 0
      → Yields a
          (cut_first false (closed_lines (split u) v pending))
          ((u ++ newline ∷ v) ++ join pending)
  cut_first-Yields a u v pending h =
      let (head, rest, e) = split_shape u in
      rw (e, closed_lines-cons head rest v pending)
        (
          rw (append-nil head) (split_head-newlines u head rest e),
          rw (append-nil head) (
              ap (λ es. es ++ back (split (a ++ head))) (back-closed_lines rest v pending)
              ∙ sym (back-append (split (a ++ head)) (rest ++ (v ++ join pending) ∷ []))
              ∙ ap back (
                  sym (append_assoc (split (a ++ head)) rest ((v ++ join pending) ∷ []))
                  ∙ ap (λ ls. ls ++ (v ++ join pending) ∷ [])
                      (sym (split-append a u head rest e (split_head-newlines u head rest e)))
                  ∙ sym (split_around a u v (join pending) h))),
        )

  pub cut_first-at_start :
      (u v : Text) (pending : List Text)
      → newlines (v ++ join pending) ≡ 0
      → events json (cut_first true (closed_lines (split u) v pending)).0
        ≡ back (split ((u ++ newline ∷ v) ++ join pending))
  cut_first-at_start u v pending h =
      back-closed_lines (split u) v pending ∙ ap back (sym (split_around [] u v (join pending) h))

  pub tail_newlines :
      (window : Text) (nl : ℕ) (pending : List Text)
      → IsLastNewline window nl
      → newlines (join pending) ≡ 0
      → newlines (drop (suc nl) window ++ join pending) ≡ 0
  tail_newlines window nl pending found hp =
      omega (arith, found.last, hp, newlines-append (drop (suc nl) window) (join pending))

  pub segment_at-Yields :
      (o : Option ℕ) (a window : Text) (pending : List Text)
      → rfind window ≡ o
      → newlines (join pending) ≡ 0
      → Yields a (segment_at o false window pending) (window ++ join pending)
  unfolding iter_ndjson_events
  segment_at-Yields none a window pending e hp =
      (omega (arith, rfind-none window e, hp, newlines-append window (join pending)), refl)
  segment_at-Yields (some nl) a window pending e hp =
      let found = rfind-IsLastNewline window nl e in
      subst
        (λ w.
          Yields a
            (cut_first false (closed_lines (split (take nl window)) (drop (suc nl) window) pending))
            (w ++ join pending))
        found.parts
        (cut_first-Yields a (take nl window) (drop (suc nl) window) pending
          (tail_newlines window nl pending found hp))

  pub segment_at-at_start :
      (o : Option ℕ) (window : Text) (pending : List Text)
      → rfind window ≡ o
      → newlines (join pending) ≡ 0
      → events json (segment_at o true window pending).0 ≡ back (split (window ++ join pending))
  segment_at-at_start none window pending e hp = ap back (
      sym (
        split_one (window ++ join pending)
          (omega (arith, rfind-none window e, hp, newlines-append window (join pending)))))
  segment_at-at_start (some nl) window pending e hp =
      let found = rfind-IsLastNewline window nl e in
      subst
        (λ w.
          events json
            (cut_first true
              (closed_lines (split (take nl window)) (drop (suc nl) window) pending)).0
          ≡ back (split (w ++ join pending)))
        found.parts
        (cut_first-at_start (take nl window) (drop (suc nl) window) pending
          (tail_newlines window nl pending found hp))
