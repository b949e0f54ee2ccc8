-- ===== src/Ndjson/Counting.antt =====
-- The line count of src/core/ndjson.py against the lines that Python's file iteration yields.
use claude_code_manager.Base.{
  ℕ, zero, suc, ◌+◌, ◌<◌, ◌≡◌, refl, sym, ◌∙◌, ap, Option, none, some, List, [], ◌∷◌, ◌++◌, take,
  drop, length, Text, nat_eq, arith, take-append-drop, length-drop, Bool-cases, inl, inr,
}
use claude_code_manager.Ndjson.{
  newline, newlines, split, cons_head, drop_last_empty, last_byte, open_line, count_loop,
  count_lines,
}
use claude_code_manager.Ndjson.Lines.{newlines-append, split_shape}

-- The last byte read, after more bytes.
abbrev pub final_byte : Option ℕ → Text → Option ℕ
final_byte last [] = last
final_byte last (c ∷ s) = final_byte (some c) s

last_byte-final : (c : ℕ) (s : Text) → last_byte c s ≡ final_byte (some c) s
last_byte-final c [] = refl
last_byte-final c (d ∷ s) = last_byte-final d s

final_byte-append :
    (last : Option ℕ) (s t : Text) → final_byte last (s ++ t) ≡ final_byte (final_byte last s) t
final_byte-append last [] t = refl
final_byte-append last (c ∷ s) t = final_byte-append (some c) s t

count_loop_lem :
    (fuel size : ℕ) (rest : Text) (total : ℕ) (last : Option ℕ)
    → length rest < fuel
    → count_loop fuel (suc size) rest total last
      ≡ total + newlines rest + open_line (final_byte last rest)
unfolding count_loop
count_loop_lem zero size rest total last h = absurd (omega (arith, h))
count_loop_lem (suc fuel) size [] total last h = omega arith
count_loop_lem (suc fuel) size (c ∷ s) total last h =
    let chunk = c ∷ take size s in
    let parts = ap (◌∷◌ c) (take-append-drop size s) in
    count_loop_lem fuel size (drop size s) (total + newlines chunk) (last_byte c (take size s))
      (omega (arith, h, length-drop size s))
    ∙ omega (
      arith,
      newlines-append chunk (drop size s),
      ap newlines parts,
      ap (λ l. open_line (final_byte l (drop size s))) (last_byte-final c (take size s)),
      ap open_line (sym (final_byte-append last chunk (drop size s))),
      ap (λ t. open_line (final_byte last t)) parts,
    )

abbrev pub line_count : List Text → ℕ
line_count ls = length (drop_last_empty ls)

line_count-cons_head :
    (c d : ℕ) (l : Text) (ls : List Text)
    → line_count (cons_head c ((d ∷ l) ∷ ls)) ≡ line_count ((d ∷ l) ∷ ls)
line_count-cons_head c d l [] = refl
line_count-cons_head c d l (m ∷ ls) = refl

-- A byte before a text that is not empty adds no line,
line_count_longer :
    (c d : ℕ) (s : Text) → line_count (cons_head c (split (d ∷ s))) ≡ line_count (split (d ∷ s))
unfolding split
line_count_longer c d s =
    let (l, ls, e) = split_shape s in
    elim (Bool-cases (nat_eq d newline)) [
      | inl h ↦ rw (h, e) refl
      | inr h ↦ rw (h, e) (line_count-cons_head c d l ls)
    ]

-- and a newline before it adds one.
line_count_closed : (s : Text) → line_count ([] ∷ split s) ≡ suc (line_count (split s))
line_count_closed s = let (l, ls, e) = split_shape s in rw (e) refl

split_step :
    (c : ℕ) (s : Text)
    → line_count (cons_head c (split s)) ≡ line_count (split s)
    → line_count (split s) ≡ newlines s + open_line (final_byte none s)
    → line_count (split (c ∷ s)) ≡ newlines (c ∷ s) + open_line (final_byte none s)
unfolding split
split_step c s longer h = elim (Bool-cases (nat_eq c newline)) [
  | inl b ↦ rw (b) (omega (arith, h, line_count_closed s))
  | inr b ↦ rw (b) (omega (arith, h, longer))
]

length-split : (s : Text) → line_count (split s) ≡ newlines s + open_line (final_byte none s)
length-split [] = unfold split in refl
length-split (c ∷ []) = unfold split in ground arith
length-split (c ∷ d ∷ s) = split_step c (d ∷ s) (line_count_longer c d s) (length-split (d ∷ s))

-- The count, in chunks of any positive size, is the number of the file's lines, where a last line
-- without a newline counts and the emptiness behind a last newline does not.
pub count_lines-length :
    (size : ℕ) (file : Text)
    → 0 < size
    → count_lines size file ≡ length (drop_last_empty (split file))
unfolding count_lines
count_lines-length zero file h = absurd (omega (arith, h))
count_lines-length (suc size) file h =
    count_loop_lem (suc (length file)) size file 0 none (omega arith)
    ∙ omega (arith, length-split file)
