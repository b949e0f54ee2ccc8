-- ===== src/Ndjson/Lines.antt =====
-- Splitting and joining the lines of src/core/ndjson.py.
use claude_code_manager.Base.{
  ℕ, zero, suc, ◌+◌, ◌≡◌, refl, sym, ◌∙◌, ap, Option, none, some, List, [], ◌∷◌, ◌++◌, take, drop,
  Text, nat_eq, arith, Bool-cases, Option-cases, inl, inr,
}
use claude_code_manager.Ndjson.{newline, newlines, cons_head, split, shifted, rfind}

pub newlines-append : (s t : Text) → newlines (s ++ t) ≡ newlines s + newlines t
newlines-append [] t = omega arith
newlines-append (c ∷ s) t = ground (arith, newlines-append s t)

-- The first line, and the lines behind it.
pub split_shape : (s : Text) → (head : Text) × (rest : List Text) × split s ≡ head ∷ rest
unfolding split
split_shape [] = ([], [], refl)
split_shape (c ∷ s) =
    let (head, rest, e) = split_shape s in
    elim (Bool-cases (nat_eq c newline)) [
      | inl h ↦ ([], split s, rw (h) refl)
      | inr h ↦ (c ∷ head, rest, rw (h, e) refl)
    ]

pub split_one : (s : Text) → newlines s ≡ 0 → split s ≡ s ∷ []
unfolding split
split_one [] h = refl
split_one (c ∷ s) h = elim (Bool-cases (nat_eq c newline)) [
  | inl e ↦ absurd (ground (arith, e, h))
  | inr e ↦ rw (e, split_one s (ground (arith, e, h))) refl
]

cons_head-append :
    (c : ℕ) (xs ys : List Text) (head : Text) (rest : List Text)
    → xs ≡ head ∷ rest
    → cons_head c (xs ++ ys) ≡ cons_head c xs ++ ys
cons_head-append c xs ys head rest e = rw (e) refl

-- `cons_head` on the lines of a text, before more lines.
cons_head-split :
    (c : ℕ) (s : Text) (ys : List Text) → cons_head c (split s ++ ys) ≡ cons_head c (split s) ++ ys
cons_head-split c s ys =
    let (head, rest, e) = split_shape s in cons_head-append c (split s) ys head rest e

-- A newline closes the line before it.
pub split-newline : (s t : Text) → split (s ++ newline ∷ t) ≡ split s ++ split t
unfolding split
split-newline [] t = refl
split-newline (c ∷ s) t = elim (Bool-cases (nat_eq c newline)) [
  | inl e ↦ rw (e, split-newline s t) refl
  | inr e ↦ rw (e, split-newline s t) (cons_head-split c s (split t))
]

-- Text before a list of lines is text before its first line.
pub split-append :
    (s t head : Text) (rest : List Text)
    → split t ≡ head ∷ rest
    → newlines head ≡ 0
    → split (s ++ t) ≡ split (s ++ head) ++ rest
unfolding split
split-append [] t head rest e h = rw (e, split_one head h) refl
split-append (c ∷ s) t head rest e h = elim (Bool-cases (nat_eq c newline)) [
  | inl b ↦ rw (b, split-append s t head rest e h) refl
  | inr b ↦ rw (b, split-append s t head rest e h) (cons_head-split c (s ++ head) rest)
]

first_line : List Text → Text
first_line [] = []
first_line (l ∷ ls) = l

split_first-newlines : (s : Text) → newlines (first_line (split s)) ≡ 0
unfolding split first_line
split_first-newlines [] = refl
split_first-newlines (c ∷ s) =
    let (head, rest, e) = split_shape s in
    elim (Bool-cases (nat_eq c newline)) [
      | inl h ↦ rw (h) refl
      | inr h ↦ rw (h, e, h) (ap (λ ls. newlines (first_line ls)) (sym e) ∙ split_first-newlines s)
    ]

pub split_head-newlines :
    (s head : Text) (rest : List Text) → split s ≡ head ∷ rest → newlines head ≡ 0
unfolding first_line
split_head-newlines s head rest e =
    ap (λ ls. newlines (first_line ls)) (sym e) ∙ split_first-newlines s

-- What `rfind` finds: a newline, and none behind it.
pub record IsLastNewline (s : Text) (n : ℕ) : Type 0 where
  pub parts : take n s ++ newline ∷ drop (suc n) s ≡ s
  pub last : newlines (drop (suc n) s) ≡ 0

pub rfind-none : (s : Text) → rfind s ≡ none → newlines s ≡ 0
unfolding rfind
rfind-none [] h = refl
rfind-none (c ∷ s) h = elim (Option-cases (rfind s)) [
  | inl e ↦ ground (arith, h, e, rfind-none s e)
  | inr (n, e) ↦ absurd (ground (arith, h, e))
]

pub rfind-IsLastNewline : (s : Text) (n : ℕ) → rfind s ≡ some n → IsLastNewline s n
unfolding rfind
rfind-IsLastNewline [] n h = ground (arith, h)
rfind-IsLastNewline (c ∷ s) n h = go (rfind s) refl (λ k. rfind-IsLastNewline s k) n h
  where
    go :
        (o : Option ℕ)
        → rfind s ≡ o
        → ((k : ℕ) → rfind s ≡ some k → IsLastNewline s k)
        → (n : ℕ) → shifted (nat_eq c newline) o ≡ some n
        → IsLastNewline (c ∷ s) n
    go (some k) e found zero q = ground (arith, q)
    go (some k) e found (suc n) q =
        let at = found n (e ∙ ap some (ground (arith, q))) in
        record { parts = ap (◌∷◌ c) at.parts; last = at.last }
    go none e found zero q = record {
      parts = ap (λ d. d ∷ s) (sym (ground (arith, q)));
      last = rfind-none s e;
    }
    go none e found (suc n) q = ground (arith, q)
