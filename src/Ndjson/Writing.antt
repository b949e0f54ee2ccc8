-- ===== src/Ndjson/Writing.antt =====
-- The writers of src/core/ndjson.py: nothing of a line is lost, and what is appended is read back.
use claude_code_manager.Base.{
  ℕ, zero, suc, ◌≤◌, ◌<◌, ◌≡◌, refl, sym, ◌∙◌, ap, Option, none, some, List, [], ◌∷◌, ◌++◌, take,
  drop, length, Text, arith, take-append-drop, append-nil, append_assoc, length-drop, All,
}
use claude_code_manager.Ndjson.{
  Json, newline, newlines, split, events, write_all, append_ndjson, existing, parse_ndjson_line,
  bytes_line, emit, iter_ndjson_events,
}
use claude_code_manager.Ndjson.Lines.{split-newline, split_one}

write_all-fuel :
    (accept : ℕ → ℕ → ℕ) (fuel n : ℕ) (file view : Text)
    → ((n k : ℕ) → 0 < k → 0 < accept n k)
    → length view ≤ fuel
    → write_all accept fuel n file view ≡ (file ++ view, [])
unfolding write_all
write_all-fuel accept zero n file [] h hf = ap (λ t. (t, [])) (sym (append-nil file))
write_all-fuel accept zero n file (c ∷ view) h hf = absurd (omega (arith, hf))
write_all-fuel accept (suc fuel) n file [] h hf = ap (λ t. (t, [])) (sym (append-nil file))
write_all-fuel accept (suc fuel) n file (c ∷ view) h hf =
    let taken = accept n (length (c ∷ view)) in
    write_all-fuel accept fuel (suc n) (file ++ take taken (c ∷ view)) (drop taken (c ∷ view)) h
      (omega (arith, hf, h n (length (c ∷ view)) (omega arith), length-drop taken (c ∷ view)))
    ∙ ap (λ t. (t, []))
        (append_assoc file (take taken (c ∷ view)) (drop taken (c ∷ view))
          ∙ ap (λ t. file ++ t) (take-append-drop taken (c ∷ view)))

-- However short the writes are that the system makes of it, as long as each takes a byte: all of
-- the data reaches the file, behind what it held, in as many writes as it has bytes at most.
pub write_all-append :
    (accept : ℕ → ℕ → ℕ) (file view : Text)
    → ((n k : ℕ) → 0 < k → 0 < accept n k)
    → write_all accept (length view) 0 file view ≡ (file ++ view, [])
write_all-append accept file view h =
    write_all-fuel accept (length view) 0 file view h (omega arith)

-- Appends to one file, one after the other.
abbrev pub append_all : (ℕ → ℕ → ℕ) → List Text → Option Text → Option Text
append_all accept [] file = file
append_all accept (t ∷ ts) file = append_all accept ts (some (append_ndjson accept t file))

-- The lines, each closed.
abbrev pub unlines : List Text → Text
unlines [] = []
unlines (t ∷ ts) = t ++ newline ∷ unlines ts

abbrev pub IsOneLine : Text → Type 0
IsOneLine t = newlines t ≡ 0

append_all-unlines :
    (accept : ℕ → ℕ → ℕ) (ts : List Text) (file : Option Text)
    → ((n k : ℕ) → 0 < k → 0 < accept n k)
    → existing (append_all accept ts file) ≡ existing file ++ unlines ts
unfolding append_ndjson
append_all-unlines accept [] file h = sym (append-nil (existing file))
append_all-unlines accept (t ∷ ts) file h =
    append_all-unlines accept ts (some (append_ndjson accept t file)) h
    ∙ ap (λ p. p.0 ++ unlines ts) (write_all-append accept (existing file) (t ++ newline ∷ []) h)
    ∙ append_assoc (existing file) (t ++ newline ∷ []) (unlines ts)
    ∙ ap (λ l. existing file ++ l) (append_assoc t (newline ∷ []) (unlines ts))

module _ {V : Type 0} (json : Json V) where
  events-unlines :
      (ts : List Text) → All IsOneLine ts → events json (split (unlines ts)) ≡ events json ts
  unfolding split iter_ndjson_events parse_ndjson_line
  events-unlines [] h = refl
  events-unlines (t ∷ ts) h =
      ap (events json)
        (split-newline t (unlines ts) ∙ ap (λ ls. ls ++ split (unlines ts)) (split_one t h.0))
      ∙ ap (emit (parse_ndjson_line json (bytes_line t))) (events-unlines ts h.1)

  -- Events that are appended to a new file, each as a text without a newline, are read back: all of
  -- them, in order, and none torn, however short the single writes are, as long as each takes a byte.
  pub append_all-events :
      (accept : ℕ → ℕ → ℕ) (ts : List Text)
      → ((n k : ℕ) → 0 < k → 0 < accept n k)
      → All IsOneLine ts
      → events json (split (existing (append_all accept ts none))) ≡ events json ts
  append_all-events accept ts h one =
      ap (λ t. events json (split t)) (append_all-unlines accept ts none h) ∙ events-unlines ts one
