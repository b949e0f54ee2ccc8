-- ===== src/Ndjson/Tail.antt =====
-- The readers of the end of a file of src/core/ndjson.py against the readers of the whole.
use claude_code_manager.Base.{
  ℕ, zero, suc, ◌-◌, ◌≤◌, ◌<◌, ◌≡◌, refl, sym, ◌∙◌, ap, some, List, [], ◌∷◌, ◌++◌, reverse, take,
  drop, length, Text, arith, reverse-append, reverse-reverse, take-append_le, take_of_le,
  take-append-drop, pos, length-drop, length-append, Bool, true, false, ◌&&◌, filter, if◌then◌else◌,
  min, ltb, nat_eq, le_cases, inl, inr, Bool-cases, leb, leb→le, le→ltb_false,
}
use claude_code_manager.Ndjson.{
  Json, last_n, events, split, is_kept, drop_last_empty, window_lines, tail_lines, tail_page,
  parse_ndjson_tail, count_ndjson_lines, count_lines, iter_ndjson_events,
  parse_ndjson_tail_parseable,
}
use claude_code_manager.Ndjson.Lines.{split_shape, split-append, split_head-newlines}
use claude_code_manager.Ndjson.Counting.{count_lines-length}
use claude_code_manager.Ndjson.FromEnd.{iter_ndjson_events_from_end-reverse}

length-reverse {ℓ} : {A : Type ℓ} (xs : List A) → length (reverse xs) ≡ length xs
length-reverse [] = refl
length-reverse (x ∷ xs) =
    ap length (reverse-append (x ∷ []) xs)
    ∙ omega (arith, length-append (reverse xs) (x ∷ []), length-reverse xs)

take-reverse_drop {ℓ} :
    {A : Type ℓ} (n : ℕ) (xs ys : List A) → length ys ≡ n → take n (reverse (xs ++ ys)) ≡ reverse ys
take-reverse_drop n xs ys h = rw (reverse-append xs ys) (
    take-append_le n (reverse ys) (reverse xs) (omega (arith, h, length-reverse ys))
    ∙ take_of_le n (reverse ys) (omega (arith, h, length-reverse ys)))

drop_of_le {ℓ} : {A : Type ℓ} (n : ℕ) (xs : List A) → length xs ≤ n → drop n xs ≡ []
drop_of_le zero [] h = refl
drop_of_le zero (x ∷ xs) h = absurd (omega (arith, h))
drop_of_le (suc n) [] h = refl
drop_of_le (suc n) (x ∷ xs) h = drop_of_le n xs (omega (arith, h))

-- The first `n` elements from the end, put back in order.
reverse-take {ℓ} : {A : Type ℓ} (n : ℕ) (xs : List A) → reverse (take n (reverse xs)) ≡ last_n n xs
reverse-take n xs = elim (le_cases n (length xs)) [
  | inl h ↦
      let k = length xs - n in
      let parts = take-append-drop k xs in
      ap (λ l. reverse (take n (reverse l))) (sym parts)
      ∙ ap reverse
          (take-reverse_drop n (take k xs) (drop k xs) (omega (arith, h, length-drop k xs)))
      ∙ reverse-reverse (drop k xs)
  | inr h ↦
      let all : length xs - n ≡ 0 = omega (arith, h) in
      ap reverse (take_of_le n (reverse xs) (omega (arith, h, length-reverse xs)))
      ∙ reverse-reverse xs
      ∙ ap (λ k. drop k xs) (sym all)
]

module _ {V : Type 0} (json : Json V) where
  -- The reader of the last parseable events, in windows of any positive size, answers the last
  -- `limit` events of the whole file, and none where the limit is 0.
  pub parse_ndjson_tail_parseable-last :
      (size : ℕ) (file : Text) (limit : ℕ)
      → 0 < size
      → parse_ndjson_tail_parseable json size (some file) (pos limit)
        ≡ last_n limit (events json (split file))
  unfolding parse_ndjson_tail_parseable
  parse_ndjson_tail_parseable-last size file zero hs =
      sym (drop_of_le _ (events json (split file)) (omega arith))
  parse_ndjson_tail_parseable-last size file (suc n) hs =
      rw (iter_ndjson_events_from_end-reverse json size file hs)
        (reverse-take (suc n) (events json (split file)))

and_right : (a b : Bool) → (a && b) ≡ true → b ≡ true
and_right true b h = h
and_right false b h = ground (arith, h)

filter-append {ℓ} :
    {A : Type ℓ} (p : A → Bool) (xs ys : List A) → filter p (xs ++ ys) ≡ filter p xs ++ filter p ys
filter-append p [] ys = refl
filter-append p (x ∷ xs) ys = ground (arith, filter-append p xs ys)

last_n-append {ℓ} :
    {A : Type ℓ} (n : ℕ) (xs ys : List A) → n ≤ length ys → last_n n (xs ++ ys) ≡ last_n n ys
last_n-append n [] ys h = refl
last_n-append n (x ∷ xs) ys h =
    let further : length (x ∷ xs ++ ys) - n ≡ suc (length (xs ++ ys) - n) =
      omega (arith, h, length-append xs ys) in
    ap (λ k. drop k (x ∷ xs ++ ys)) further ∙ last_n-append n xs ys h

module _ {V : Type 0} (json : Json V) where
  -- The lines with something on them.
  abbrev pub kept : List Text → List Text
  kept ls = filter (is_kept json) ls

  kept-drop_last_empty : (ls : List Text) → kept (drop_last_empty ls) ≡ kept ls
  kept-drop_last_empty [] = refl
  kept-drop_last_empty ([] ∷ []) = refl
  kept-drop_last_empty ((c ∷ l) ∷ []) = refl
  kept-drop_last_empty (l ∷ m ∷ ls) = ground (arith, kept-drop_last_empty (m ∷ ls))

  -- The lines of the window are the last ones of the file.
  window_lines_last :
      (size : ℕ) (file : Text) (n : ℕ)
      → n ≤ length (window_lines json size file)
      → last_n n (window_lines json size file) ≡ last_n n (kept (split file))
  window_lines_last size file n h =
      let k = length file - size in
      let (head, rest, e) = split_shape (drop k file) in
      let only : window_lines json size file ≡ kept rest =
        ap (λ ls. kept (drop_last_empty (drop 1 ls))) e ∙ kept-drop_last_empty rest in
      let shape =
        split-append (take k file) (drop k file) head rest e (split_head-newlines _ head rest e) in
      ap (last_n n) only
      ∙ sym (
          last_n-append n (kept (split (take k file ++ head))) (kept rest)
            (omega (arith, h, ap length only)))
      ∙ ap (last_n n) (
          sym (filter-append (is_kept json) (split (take k file ++ head)) rest)
          ∙ ap kept (sym shape ∙ ap split (take-append-drop k file)))

  tail_lines-last :
      (size : ℕ) (file : Text) (n : ℕ) → tail_lines json size file n ≡ last_n n (kept (split file))
  unfolding tail_lines
  tail_lines-last size file n =
      elim (Bool-cases (ltb size (length file) && leb n (length (window_lines json size file)))) [
        | inl h ↦ rw (h) (window_lines_last size file n (leb→le _ _ (and_right _ _ h)))
        | inr h ↦ rw (h) refl
      ]

  abbrev pub page_of : Text → ℕ → ℕ → List V × ℕ × Bool
  page_of file limit total =
      (events json (last_n (min limit total) (kept (split file))), total, ltb limit total)

  empty_page : (file : Text) (n : ℕ) → n ≡ 0 → events json (last_n n (kept (split file))) ≡ []
  unfolding iter_ndjson_events
  empty_page file n h =
      ap (events json)
        (drop_of_le (length (kept (split file)) - n) (kept (split file)) (omega (arith, h)))

  tail_page_lem :
      (size : ℕ) (file : Text) (limit total : ℕ)
      → tail_page json size file limit total ≡ page_of file limit total
  tail_page_lem size file limit total = elim (Bool-cases (nat_eq (min limit total) 0)) [
    | inl h ↦ rw (h) (
        ap (λ vs. (vs, total, ltb limit total))
          (sym (empty_page file (min limit total) (ground (arith, h)))))
    | inr h ↦ rw (h) (
        ap (λ ls. (events json ls, total, ltb limit total))
          (tail_lines-last size file (min limit total)))
  ]

  -- The page that the tail reader answers does not depend on its window: the events of the last
  -- lines with something on them, at most `limit` of them and at most as many as the file has
  -- lines; how many lines the file has; and whether that is more than the limit.
  pub parse_ndjson_tail-page_of :
      (size chunk : ℕ) (file : Text) (limit : ℕ)
      → 0 < chunk
      → parse_ndjson_tail json size chunk (some file) limit
        ≡ page_of file limit (length (drop_last_empty (split file)))
  unfolding parse_ndjson_tail count_ndjson_lines
  parse_ndjson_tail-page_of size chunk file limit h =
      answer (count_lines chunk file) ∙ ap (page_of file limit) (count_lines-length chunk file h)
    where
      answer :
          (total : ℕ)
          → (if nat_eq total 0 then ([], 0, false) else tail_page json size file limit total)
            ≡ page_of file limit total
      answer total = elim (Bool-cases (nat_eq total 0)) [
        | inl e ↦
            let none_left : total ≡ 0 = ground (arith, e) in
            rw (e) (
              sym (
                ap (λ vs. (vs, total, ltb limit total))
                  (empty_page file (min limit total) (omega (arith, none_left)))
                ∙ ap (λ k. ([], k, ltb limit k)) none_left
                ∙ ap (λ b. ([], 0, b)) (le→ltb_false limit 0 (omega arith))))
        | inr e ↦ rw (e) (tail_page_lem size file limit total)
      ]
