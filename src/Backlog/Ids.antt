-- ===== src/Backlog/Ids.antt =====
-- src/core/backlog_loop.py: the ids of new items.
use claude_code_manager.Base.{
  ℕ, zero, suc, ◌+◌, ◌-◌, ◌*◌, ◌/◌, ◌%◌, ◌≤◌, ◌≡◌, refl, ap, sym, ◌∙◌, ◌≢◌, true, false, Option,
  none, some, List, [], ◌∷◌, ◌++◌, Text, length, drop, starts_with, all, is_empty, nat_eq,
  Bool-cases, Option-cases, inl, inr, max, arith, All, All-map_of, is_digit, number_from, padded,
  decimal, digits_before, zeros,
}
use claude_code_manager.Backlog.{Item, digits_of, id_number, at_least, max_num, dashed, next_id}

is_zero : (n : ℕ) → nat_eq n 0 ≡ true → n ≡ 0
is_zero n h = ground arith

digit_of : (n : ℕ) → is_digit (b'0' + n % 10) ≡ true
digit_of n = ground arith

same_code : (c : ℕ) → nat_eq c c ≡ true
same_code c = ground arith

-- Reading back a print.
number-digits_before :
    (rounds n : ℕ) (out : Text)
    → n ≤ rounds
    → number_from 0 (digits_before rounds n out) ≡ number_from n out
unfolding digits_before
number-digits_before zero n out h =
    let e : 0 ≡ n = omega (arith, h) in ap (λ k. number_from k out) e
number-digits_before (suc rounds) n out h = elim (Bool-cases (nat_eq n 0)) [
  | inl z ↦ rw z (ap (λ k. number_from k out) (sym (is_zero n z)))
  | inr nz ↦ rw nz (
      number-digits_before rounds (n / 10) ((b'0' + n % 10) ∷ out) (ground arith)
      ∙ (let e : n / 10 * 10 + (b'0' + n % 10 - b'0') ≡ n = omega arith in
          ap (λ k. number_from k out) e))
]

digits-digits_before :
    (rounds n : ℕ) (out : Text)
    → all is_digit out ≡ true
    → all is_digit (digits_before rounds n out) ≡ true
unfolding digits_before
digits-digits_before zero n out h = h
digits-digits_before (suc rounds) n out h = elim (Bool-cases (nat_eq n 0)) [
  | inl z ↦ rw z h
  | inr nz ↦
      rw nz (digits-digits_before rounds (n / 10) ((b'0' + n % 10) ∷ out) (rw (digit_of n) h))
]

number-zeros : (k : ℕ) (s : Text) → number_from 0 (zeros k ++ s) ≡ number_from 0 s
number-zeros zero s = refl
number-zeros (suc k) s = number-zeros k s

digits-zeros : (k : ℕ) (s : Text) → all is_digit s ≡ true → all is_digit (zeros k ++ s) ≡ true
digits-zeros zero s h = h
digits-zeros (suc k) s h = digits-zeros k s h

number-decimal : (n : ℕ) → (number_from 0 (decimal n) ≡ n) × (all is_digit (decimal n) ≡ true)
unfolding decimal
number-decimal n = elim (Bool-cases (nat_eq n 0)) [
  | inl z ↦ rw z (sym (is_zero n z), refl)
  | inr nz ↦ rw nz (number-digits_before n n [] (omega arith), digits-digits_before n n [] refl)
]

starts_with-append : (head s : Text) → starts_with head (head ++ s) ≡ true
starts_with-append [] s = refl
starts_with-append (c ∷ head) s = rw (same_code c) (starts_with-append head s)

drop-append : (head s : Text) → drop (length head) (head ++ s) ≡ s
drop-append [] s = refl
drop-append (c ∷ head) s = drop-append head s

padded-number :
    (width n : ℕ) → (number_from 0 (padded width n) ≡ n) × (all is_digit (padded width n) ≡ true)
unfolding padded
padded-number width n =
    let (value, digits) = number-decimal n in
    (
      number-zeros (width - length (decimal n)) (decimal n) ∙ value,
      digits-zeros (width - length (decimal n)) (decimal n) digits,
    )

no_digits : (s : Text) (n : ℕ) → number_from 0 s ≡ n → nat_eq n 0 ≡ false → is_empty s ≡ false
no_digits [] n h nz = ground (arith, h, nz)
no_digits (c ∷ s) n h nz = refl

append-is_empty : (s t : Text) → is_empty t ≡ false → is_empty (s ++ t) ≡ false
append-is_empty [] t h = h
append-is_empty (c ∷ s) t h = refl

decimal-is_empty : (n : ℕ) → is_empty (decimal n) ≡ false
unfolding decimal
decimal-is_empty n = elim (Bool-cases (nat_eq n 0)) [
  | inl z ↦ rw z refl
  | inr nz ↦ no_digits _ n (number-decimal n).0 nz
]

padded-is_empty : (width n : ℕ) → is_empty (padded width n) ≡ false
unfolding padded
padded-is_empty width n =
    append-is_empty (zeros (width - length (decimal n))) (decimal n) (decimal-is_empty n)

digits_of-dashed : (prefix s : Text) → digits_of prefix (dashed prefix ++ s) ≡ some s
digits_of-dashed [] s = refl
digits_of-dashed (c ∷ prefix) s =
    rw
      (same_code c, starts_with-append (prefix ++ b'-' ∷ []) s, drop-append (prefix ++ b'-' ∷ []) s)
      refl

-- The number of an id that was made from a number.
id_number-padded :
    (prefix : Text) (width n : ℕ) → id_number prefix (dashed prefix ++ padded width n) ≡ some n
unfolding id_number
id_number-padded prefix width n =
    let (value, digits) = padded-number width n in
    rw (id_number, digits_of-dashed prefix (padded width n), padded-is_empty width n, digits, value)
      refl

-- No number of an id is above the largest.
abbrev AtMost : ℕ → Option ℕ → Type 0
AtMost n none = Unit
AtMost n (some m) = m ≤ n

max_num-le : (prefix : Text) (n : ℕ) (items : List Item) → n ≤ max_num prefix n items
unfolding max_num
max_num-le prefix n [] = omega arith
max_num-le prefix n (item ∷ items) = elim (Option-cases (id_number prefix item.id)) [
  | inl e ↦ rw e (max_num-le prefix n items)
  | inr (m, e) ↦ rw e (omega (arith, max_num-le prefix (max n m) items))
]

AtMost-le : (a b : ℕ) (o : Option ℕ) → AtMost a o → a ≤ b → AtMost b o
AtMost-le a b none h le = tt
AtMost-le a b (some m) h le = omega (arith, h, le)

at_least-AtMost : (n : ℕ) (o : Option ℕ) → AtMost (at_least n o) o
at_least-AtMost n none = tt
at_least-AtMost n (some m) = omega arith

max_num-AtMost :
    (prefix : Text) (items : List Item) (n : ℕ)
    → All (λ item. AtMost (max_num prefix n items) (id_number prefix item.id)) items
unfolding max_num
max_num-AtMost prefix [] n = tt
max_num-AtMost prefix (item ∷ items) n = (
  AtMost-le _ _ (id_number prefix item.id) (at_least-AtMost n (id_number prefix item.id))
      (max_num-le prefix _ items),
  max_num-AtMost prefix items (at_least n (id_number prefix item.id)),
)

some-inj : {a b : ℕ} → ◌≡◌ {A = Option ℕ} (some a) (some b) → a ≡ b
some-inj h = cc

-- The id of a new item has the number after the largest of the backlog, and is the id of none of
-- its items.
pub next_id-fresh :
    (items : List Item) (prefix : Text)
    → (id_number prefix (next_id items prefix) ≡ some (max_num prefix 0 items + 1))
      × All (λ item. item.id ≢ next_id items prefix) items
unfolding next_id
next_id-fresh items prefix = (
  number,
  All-map_of _ _ items
      (λ item most same.
        too_large (id_number prefix item.id) most (ap (id_number prefix) same ∙ number))
      (max_num-AtMost prefix items 0),
)
  where
    number : id_number prefix (next_id items prefix) ≡ some (max_num prefix 0 items + 1)
    number = id_number-padded prefix 3 (max_num prefix 0 items + 1)

    too_large :
        (o : Option ℕ)
        → AtMost (max_num prefix 0 items) o
        → o ≡ some (max_num prefix 0 items + 1)
        → ⊥
    too_large none most e = cc
    too_large (some m) most e = omega (arith, most, some-inj e)
