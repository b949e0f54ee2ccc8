-- ===== src/Runs/RawLines.antt =====
-- The raw log of src/core/runs.py against the readers of src/core/ndjson.py.
use claude_code_manager.Base.{
  ℕ, zero, suc, ◌≤◌, ◌≡◌, refl, sym, ◌∙◌, ap, true, Option, none, some, List, [], ◌∷◌, ◌++◌, take,
  drop, length, Text, nat_eq, arith, length-drop, Bool-cases, Option-cases, inl, inr,
}
use claude_code_manager.Ndjson.{
  Json, newline, split, drop_last_empty, events, bytes_line, parse_ndjson_line, iter_ndjson_events,
  parsed, emit, every,
}
use claude_code_manager.Ndjson.Lines.{split_shape}
use claude_code_manager.Runs.Log.{
  find_newline, raw_pieces, parse_raw_lines, pieces_events, piece_events, as_events,
}

-- The lines of a text by its first newline.
find_newline-none : (s : Text) → find_newline s ≡ none → split s ≡ s ∷ []
unfolding split find_newline
find_newline-none [] h = refl
find_newline-none (c ∷ s) h = elim (Bool-cases (nat_eq c newline)) [
  | inl e ↦ absurd (ground (arith, e, h))
  | inr e ↦ rw (e, find_newline-none s (ground (arith, e, h))) refl
]

find_newline-some :
    (s : Text) (n : ℕ) → find_newline s ≡ some n → split s ≡ take n s ∷ split (drop (suc n) s)
unfolding split find_newline
find_newline-some [] n h = ground (arith, h)
find_newline-some (c ∷ s) n h = elim (Bool-cases (nat_eq c newline)) [
  | inl e ↦
      let here : 0 ≡ n = ground (arith, e, h) in
      rw (e) (ap (λ k. take k (c ∷ s) ∷ split (drop k s)) here)
  | inr e ↦ elim (Option-cases (find_newline s)) [
    | inl none_found ↦ absurd (ground (arith, e, h, none_found))
    | inr (k, found) ↦
        let behind : suc k ≡ n = ground (arith, e, h, found) in
        rw (e, find_newline-some s k found) (ap (λ m. take m (c ∷ s) ∷ split (drop m s)) behind)
  ]
]

drop_last_empty-cons : (l s : Text) → drop_last_empty (l ∷ split s) ≡ l ∷ drop_last_empty (split s)
drop_last_empty-cons [] s = let (head, rest, e) = split_shape s in rw (e) refl
drop_last_empty-cons (c ∷ l) s = let (head, rest, e) = split_shape s in rw (e) refl

raw_pieces-split :
    (fuel : ℕ) (s : Text) → length s ≤ fuel → raw_pieces fuel s ≡ drop_last_empty (split s)
unfolding raw_pieces
raw_pieces-split zero [] h = unfold split in refl
raw_pieces-split zero (c ∷ s) h = absurd (omega (arith, h))
raw_pieces-split (suc fuel) [] h = unfold split in refl
raw_pieces-split (suc fuel) (c ∷ s) h = elim (Option-cases (find_newline (c ∷ s))) [
  | inl e ↦ rw (find_newline-none (c ∷ s) e, raw_pieces, e) refl
  | inr (n, e) ↦
      rw (find_newline-some (c ∷ s) n e, raw_pieces, e)
        (ap (λ ls. take n (c ∷ s) ∷ ls)
            (raw_pieces-split fuel (drop (suc n) (c ∷ s))
              (omega (arith, h, length-drop (suc n) (c ∷ s))))
          ∙ sym (drop_last_empty-cons (take n (c ∷ s)) (drop (suc n) (c ∷ s))))
]

module _ {V : Type 0} where
  -- The events of a list that are not null.
  abbrev pub non_null : List (Option V) → List V
  non_null [] = []
  non_null (v ∷ vs) = emit v (non_null vs)

  -- What the code relies on of the parser: nothing but space is no JSON.
  pub record IsStrict (json : Json V) : Type 0 where
    pub blank_bytes : (s : Text) → every json.is_byte_space s ≡ true → json.loads s ≡ none
    pub blank_decoded :
        (s : Text) → every json.is_byte_space s ≡ true → every json.is_space (json.decode s) ≡ true
    pub blank_text : (s : Text) → every json.is_space s ≡ true → json.loads_text s ≡ none

  non_null-append : (xs ys : List (Option V)) → non_null (xs ++ ys) ≡ non_null xs ++ non_null ys
  non_null-append [] ys = refl
  non_null-append (none ∷ xs) ys = non_null-append xs ys
  non_null-append (some v ∷ xs) ys = ap (◌∷◌ v) (non_null-append xs ys)

  non_null-as_events : (vs : List V) → non_null (as_events vs) ≡ vs
  non_null-as_events [] = refl
  non_null-as_events (v ∷ vs) = ap (◌∷◌ v) (non_null-as_events vs)

  emit-append : (o : Option V) (vs : List V) → emit o [] ++ vs ≡ emit o vs
  emit-append none vs = refl
  emit-append (some v) vs = refl

  piece_events-line :
      (json : Json V) (p : Text)
      → IsStrict json
      → non_null (piece_events json p) ≡ emit (parse_ndjson_line json (bytes_line p)) []
  unfolding parse_ndjson_line iter_ndjson_events
  piece_events-line json p h = elim (Bool-cases (every json.is_byte_space p)) [
    | inl e ↦ rw (e, piece_events, h.blank_bytes p e, h.blank_decoded p e) refl
    | inr e ↦ elim (Option-cases (json.loads p)) [
      | inr (v, l) ↦ rw (e, piece_events, l) refl
      | inl l ↦ elim (Bool-cases (every json.is_space (json.decode p))) [
        | inl b ↦ rw (e, piece_events, l, b, h.blank_text (json.decode p) b) refl
        | inr b ↦
            rw (e, piece_events, l, b)
              (non_null-as_events (emit (parsed (json.loads_text (json.decode p)) none) []))
      ]
    ]
  ]

  pieces_events-events :
      (json : Json V) (ps : List Text)
      → IsStrict json
      → non_null (pieces_events json ps) ≡ events json ps
  unfolding iter_ndjson_events
  pieces_events-events json [] h = refl
  pieces_events-events json (p ∷ ps) h =
      non_null-append (piece_events json p) (pieces_events json ps)
      ∙ ap (λ vs. vs ++ non_null (pieces_events json ps)) (piece_events-line json p h)
      ∙ emit-append (parse_ndjson_line json (bytes_line p)) (non_null (pieces_events json ps))
      ∙ ap (emit (parse_ndjson_line json (bytes_line p))) (pieces_events-events json ps h)

  events-drop_last_empty :
      (json : Json V) (ls : List Text) → events json (drop_last_empty ls) ≡ events json ls
  unfolding iter_ndjson_events parse_ndjson_line
  events-drop_last_empty json [] = refl
  events-drop_last_empty json ([] ∷ []) = refl
  events-drop_last_empty json ((c ∷ l) ∷ []) = refl
  events-drop_last_empty json ([] ∷ m ∷ ls) = events-drop_last_empty json (m ∷ ls)
  events-drop_last_empty json ((c ∷ l) ∷ m ∷ ls) =
      ap (emit (parse_ndjson_line json (bytes_line (c ∷ l)))) (events-drop_last_empty json (m ∷ ls))

  -- The fast parse of a raw log keeps the skip contract of the readers, under a parser for which
  -- nothing but space is no JSON: but for JSON nulls, its events are those of the lines of the
  -- log, whatever they hold, a torn last line included.
  pub parse_raw_lines-events :
      (json : Json V) (raw : Text)
      → IsStrict json
      → non_null (parse_raw_lines json raw) ≡ events json (split raw)
  unfolding parse_raw_lines
  parse_raw_lines-events json raw h =
      ap (λ ps. non_null (pieces_events json ps)) (raw_pieces-split (length raw) raw (omega arith))
      ∙ pieces_events-events json (drop_last_empty (split raw)) h
      ∙ events-drop_last_empty json (split raw)
