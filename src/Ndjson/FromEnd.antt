-- ===== src/Ndjson/FromEnd.antt =====
-- The walk from the end of src/core/ndjson.py: what it yields, whatever the window size.
use claude_code_manager.Base.{
  ℕ, zero, suc, ◌-◌, ◌≤◌, ◌<◌, ◌≡◌, refl, sym, ◌∙◌, ap, true, false, Option, none, some, List, [],
  ◌∷◌, ◌++◌, reverse, take, drop, length, Text, nat_eq, arith, append_assoc, append-nil,
  reverse-append, take_of_le,
}
use claude_code_manager.Ndjson.{
  newlines, split, join, rfind, events, Json, emit, parse_ndjson_line, iter_ndjson_events, segment,
  segment_at, walk_back, bytes_line, iter_ndjson_events_from_end,
}
use claude_code_manager.Ndjson.Windows.{back, back-append, segment_at-Yields, segment_at-at_start}

module _ {V : Type 0} (json : Json V) where
  walk_back_zero :
      (size : ℕ) (file : Text) (fuel : ℕ) (pending : List Text)
      → walk_back json size file fuel 0 pending ≡ []
  unfolding walk_back
  walk_back_zero size file zero pending = refl
  walk_back_zero size file (suc fuel) pending = refl

  walk_back_step :
      (size : ℕ) (file : Text) (fuel n start : ℕ) (pending : List Text)
      → suc n - size ≡ start
      → newlines (join pending) ≡ 0
      → take start file ++ take (suc n - start) (drop start file) ≡ take (suc n) file
      → ((left : List Text)
          → newlines (join left) ≡ 0
          → 0 < start
          → walk_back json size file fuel start left
            ≡ back json (split (take start file ++ join left)))
      → walk_back json size file (suc fuel) (suc n) pending
        ≡ back json (split (take (suc n) file ++ join pending))
  unfolding walk_back segment
  walk_back_step size file fuel n zero pending e hp window rest =
      let w = take (suc n - 0) (drop 0 file) in
      rw (e, walk_back_zero size file fuel _)
        (append-nil (events json (segment_at (rfind w) true w pending).0)
          ∙ segment_at-at_start json (rfind w) w pending refl hp
          ∙ ap (λ t. back json (split (t ++ join pending))) window)
  walk_back_step size file fuel n (suc start) pending e hp window rest =
      let w = take (suc n - suc start) (drop (suc start) file) in
      let yields = segment_at-Yields json (rfind w) (take (suc start) file) w pending refl hp in
      let positive : nat_eq (suc start) 0 ≡ false = ground arith in
      rw (e, positive)
        (ap (λ vs. events json (segment_at (rfind w) false w pending).0 ++ vs)
            (rest (segment_at (rfind w) false w pending).1 yields.0 (omega arith))
          ∙ yields.1
          ∙ ap (λ t. back json (split t))
              (sym (append_assoc (take (suc start) file) w (join pending))
                ∙ ap (λ t. t ++ join pending) window))

take-window :
    (start stop : ℕ) (file : Text)
    → start ≤ stop
    → take start file ++ take (stop - start) (drop start file) ≡ take stop file
take-window zero stop file h = ap (λ n. take n file) (omega arith)
take-window (suc start) (suc stop) [] h = take_nil (suc stop - suc start)
  where
    take_nil : (n : ℕ) → take {A = ℕ} n [] ≡ []
    take_nil zero = refl
    take_nil (suc n) = refl
take-window (suc start) zero file h = absurd (omega (arith, h))
take-window (suc start) (suc stop) (c ∷ file) h =
    let shorter : suc stop - suc start ≡ stop - start = omega arith in
    rw (shorter) (ap (◌∷◌ c) (take-window start stop file (omega (arith, h))))

module _ {V : Type 0} (json : Json V) where
  walk_back_lem :
      (size : ℕ) (file : Text) (fuel at : ℕ) (pending : List Text)
      → 0 < size
      → 0 < at
      → at ≤ fuel
      → newlines (join pending) ≡ 0
      → walk_back json size file fuel at pending ≡ back json (split (take at file ++ join pending))
  walk_back_lem size file zero at pending hs ha hf hp = absurd (omega (arith, ha, hf))
  walk_back_lem size file (suc fuel) zero pending hs ha hf hp = absurd (omega (arith, ha))
  walk_back_lem size file (suc fuel) (suc n) pending hs ha hf hp =
      walk_back_step json size file fuel n (suc n - size) pending refl hp
        (take-window (suc n - size) (suc n) file (omega arith))
        (λ left hl positive.
          walk_back_lem size file fuel (suc n - size) left hs positive (omega (arith, hs, hf)) hl)

  iter_ndjson_events_from_end-split :
      (size : ℕ) (file : Text)
      → 0 < size
      → iter_ndjson_events_from_end json size (some file) ≡ back json (split file)
  unfolding iter_ndjson_events_from_end walk_back split iter_ndjson_events parse_ndjson_line
  iter_ndjson_events_from_end-split size [] hs = refl
  iter_ndjson_events_from_end-split size (c ∷ cs) hs =
      walk_back_lem size (c ∷ cs) (length (c ∷ cs)) (length (c ∷ cs)) [] hs (omega arith)
        (omega arith) refl
      ∙ ap (back json) (
          ap split (
            append-nil (take (length (c ∷ cs)) (c ∷ cs))
            ∙ take_of_le (length (c ∷ cs)) (c ∷ cs) (omega arith)))

  reverse-emit : (o : Option V) (vs : List V) → reverse (emit o vs) ≡ reverse vs ++ emit o []
  reverse-emit none vs = sym (append-nil (reverse vs))
  reverse-emit (some v) vs = reverse-append (v ∷ []) vs

  back-reverse : (ls : List Text) → back json ls ≡ reverse (events json ls)
  unfolding iter_ndjson_events
  back-reverse [] = refl
  back-reverse (l ∷ ls) =
      back-append json (l ∷ []) ls
      ∙ ap (λ vs. vs ++ back json (l ∷ [])) (back-reverse ls)
      ∙ sym (reverse-emit (parse_ndjson_line json (bytes_line l)) (events json ls))

  -- The walk from the end, in windows of any positive size, yields the events of the file's lines,
  -- the newest first: also where a line is longer than a window, or starts or ends at its border.
  pub iter_ndjson_events_from_end-reverse :
      (size : ℕ) (file : Text)
      → 0 < size
      → iter_ndjson_events_from_end json size (some file) ≡ reverse (events json (split file))
  iter_ndjson_events_from_end-reverse size file hs =
      iter_ndjson_events_from_end-split size file hs ∙ back-reverse (split file)
