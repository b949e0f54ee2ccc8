-- ===== src/Memo/Recency.antt =====
-- `BoundedMemo` (src/core/memo.py) against its specification: the most recently touched keys.
use claude_code_manager.Base.{
  ℕ, ◌+◌, ◌≤◌, ◌≡◌, refl, sym, ◌∙◌, Option, none, some, List, [], ◌∷◌, ◌++◌, ltb, length, Eq, ◌==◌,
  Bool-cases, Option-cases, ap, not, filter, find, drop, ◌-◌, length-append, arith, ltb_false→le,
  ltb→lt, lt→ltb, le→ltb_false, inl, inr, subst,
}
use claude_code_manager.Memo.{BoundedMemo, empty_memo, lookup, pop, move_to_end, evict, get, store}
use claude_code_manager.Memo.Entries.{
  Absent, Distinct, move_to_end-assign, pop-Absent, Distinct-pop, Distinct-snoc, Absent-pop,
  length-pop, length-evict-le, evict-eq-drop,
}

-- The two methods that touch a key.
pub data Access (K V : Type 0) : Type 0 where
  read : K → Access K V
  write : K → V → Access K V

-- The last `n` of a list.
abbrev pub last : {A : Type 0} → ℕ → List A → List A
last n l = drop (length l - n) l

module _ {K V : Type 0} ⦃e : Eq K⦄ where
  -- The specification keeps every key, and knows nothing of the memo's own operations: a touched key
  -- leaves its place and goes last.
  abbrev pub touch : K → V → List (K × V) → List (K × V)
  touch k v l = filter (λ x. not (x.0 == k)) l ++ (k, v) ∷ []

  abbrev pub value_in : Option (K × V) → Option V
  value_in none = none
  value_in (some x) = some x.1

  abbrev pub value_of : K → List (K × V) → Option V
  value_of k l = value_in (find (λ x. x.0 == k) l)

  abbrev pub read_in : K → Option V → List (K × V) → List (K × V)
  read_in k none l = l
  read_in k (some v) l = touch k v l

  -- A write touches its key; so does a read of a key that is among the last `n`.
  unfoldable pub recency : ℕ → List (Access K V) → List (K × V) → List (K × V)
  recency n [] l = l
  recency n (write k v ∷ rest) l = recency n rest (touch k v l)
  recency n (read k ∷ rest) l = recency n rest (read_in k (value_of k (last n l)) l)

  unfoldable pub access : Access K V → BoundedMemo K V → BoundedMemo K V
  access (read k) m = (get k m).1
  access (write k v) m = store k v m

  unfoldable pub run : List (Access K V) → BoundedMemo K V → BoundedMemo K V
  run [] m = m
  run (a ∷ rest) m = run rest (access a m)

  -- What the memo's own operations are in these terms.
  lookup-value_of : (k : K) (l : List (K × V)) → lookup k l ≡ value_of k l
  unfolding lookup
  lookup-value_of k [] = refl
  lookup-value_of k ((j, v) ∷ l) = elim (Bool-cases (j == k)) [
    | inl here ↦ rw here refl
    | inr other ↦ rw other (lookup-value_of k l)
  ]

  filter-Absent : (k : K) (l : List (K × V)) → Absent k l → filter (λ x. not (x.0 == k)) l ≡ l
  filter-Absent k [] h = refl
  filter-Absent k (x ∷ l) h = rw (h.0) (ap (◌∷◌ x) (filter-Absent k l h.1))

  pop-filter : (k : K) (l : List (K × V)) → Distinct l → pop k l ≡ filter (λ x. not (x.0 == k)) l
  unfolding pop
  pop-filter k [] d = refl
  pop-filter k ((j, v) ∷ l) d = elim (Bool-cases (j == k)) [
    | inl same ↦
        let gone : Absent k l = subst (λ i. Absent i l) ((e.beq_iff j k).0 same) d.0 in
        rw same (sym (filter-Absent k l gone))
    | inr other ↦ rw other (ap (◌∷◌ (j, v)) (pop-filter k l d.1))
  ]

  -- The move of the memo.
  abbrev moved : K → V → List (K × V) → List (K × V)
  moved k v l = pop k l ++ (k, v) ∷ []

  moved-touch : (k : K) (v : V) (l : List (K × V)) → Distinct l → moved k v l ≡ touch k v l
  moved-touch k v l d = ap (λ x. x ++ (k, v) ∷ []) (pop-filter k l d)

  evict_fits : (n : ℕ) (l : List (K × V)) → length l ≤ n → evict n l ≡ l
  unfolding evict
  evict_fits n [] h = refl
  evict_fits n (x ∷ l) h = rw (le→ltb_false n _ h)

  evict_over : (n : ℕ) (x : K × V) (l : List (K × V)) → n ≤ length l → evict n (x ∷ l) ≡ evict n l
  unfolding evict
  evict_over n x l h = rw (lt→ltb n (length (x ∷ l)) (omega arith))

  length-le-pop : (k : K) (l : List (K × V)) → length l ≤ length (pop k l) + 1
  unfolding pop
  length-le-pop k [] = omega arith
  length-le-pop k ((j, w) ∷ l) = ground (arith, length-le-pop k l)

  -- To move a key last and keep `n` entries, the last `n` entries are all that matter.
  evict-moved-evict :
      (n : ℕ) (k : K) (v : V) (l : List (K × V))
      → Distinct l
      → evict n (moved k v (evict n l)) ≡ evict n (moved k v l)
  unfolding pop evict
  evict-moved-evict n k v [] d = refl
  evict-moved-evict n k v ((j, w) ∷ l) d = elim (Bool-cases (ltb n (length ((j, w) ∷ l)))) [
    | inr fits ↦ rw (evict_fits n ((j, w) ∷ l) (ltb_false→le _ _ fits))
    | inl over ↦
        let full : n ≤ length l = omega (arith, ltb→lt _ _ over) in
        rw (evict_over n (j, w) l full) (evict-moved-evict n k v l d.1 ∙ sym (here full))
  ]
    where
      here : n ≤ length l → evict n (moved k v ((j, w) ∷ l)) ≡ evict n (moved k v l)
      here full = elim (Bool-cases (j == k)) [
        | inl same ↦
            let gone : Absent k l = subst (λ i. Absent i l) ((e.beq_iff j k).0 same) d.0 in
            rw (same, pop) (rw (pop-Absent k l gone))
        | inr other ↦
            rw (other, pop)
              (evict_over n (j, w) (moved k v l)
                (omega (arith, length-append (pop k l) ((k, v) ∷ []), length-le-pop k l, full)))
      ]

  Distinct-moved : (k : K) (v : V) (l : List (K × V)) → Distinct l → Distinct (moved k v l)
  Distinct-moved k v l d = Distinct-snoc _ k v (Distinct-pop k l d) (Absent-pop k l d)

  get_miss : (k : K) (m : BoundedMemo K V) → lookup k m.entries ≡ none → get k m ≡ (none, m)
  unfolding get
  get_miss k m miss = rw (miss, get)

  get_hit :
      (k : K) (m : BoundedMemo K V) (v : V)
      → lookup k m.entries ≡ some v
      → get k m ≡ (some v, record m { entries = moved k v m.entries })
  unfolding get move_to_end
  get_hit k m v hit = rw (hit, get) (rw (hit, move_to_end))

  moved_fits :
      (n : ℕ) (k : K) (v : V) (l : List (K × V))
      → length l ≤ n
      → lookup k l ≡ some v
      → length (moved k v l) ≤ n
  moved_fits n k v l h hit =
      omega (arith, length-append (pop k l) ((k, v) ∷ []), length-pop k l v hit)

  answer : (k : K) (m : BoundedMemo K V) → (get k m).0 ≡ lookup k m.entries
  answer k m = elim (Option-cases (lookup k m.entries)) [
    | inl miss ↦ ap (λ r. r.0) (get_miss k m miss) ∙ sym miss
    | inr (v, hit) ↦ ap (λ r. r.0) (get_hit k m v hit) ∙ sym hit
  ]

  -- What a read finds.
  found :
      (n : ℕ) (k : K) (m : BoundedMemo K V) (l : List (K × V))
      → m.entries ≡ evict n l
      → value_of k (last n l) ≡ lookup k m.entries
  found n k m l shown =
      ap (value_of k) (sym (evict-eq-drop n l))
      ∙ (sym (lookup-value_of k (evict n l)) ∙ ap (lookup k) (sym shown))

  run_from :
      (n : ℕ) (accesses : List (Access K V)) (m : BoundedMemo K V) (l : List (K × V))
      → m.limit ≡ n
      → m.entries ≡ evict n l
      → Distinct l
      → (run accesses m).entries ≡ evict n (recency n accesses l)
  unfolding run recency store access
  run_from n [] m l same shown d = shown
  run_from n (write k v ∷ rest) m l same shown d =
      run_from n rest (store k v m) (touch k v l) same
        (rw (sym (moved-touch k v l d))
          (rw (move_to_end-assign, same, shown) (evict-moved-evict n k v l d)))
        (subst Distinct (moved-touch k v l d) (Distinct-moved k v l d))
  run_from n (read k ∷ rest) m l same shown d = elim (Option-cases (lookup k m.entries)) [
    | inl miss ↦
        subst After (sym (get_miss k m miss)) (run_from n rest m l same shown d)
        ∙ reading none (found n k m l shown ∙ miss) (ap (λ r. r.0) (get_miss k m miss))
    | inr (v, hit) ↦
        subst After (sym (get_hit k m v hit)) (
          run_from n rest (record m { entries = moved k v m.entries }) (touch k v l) same
            (rw (sym (moved-touch k v l d)) (
              sym (
                evict_fits n _ (
                  moved_fits n k v m.entries
                    (subst (λ t. length t ≤ n) (sym shown) (length-evict-le n l)) hit))
              ∙ rw shown (evict-moved-evict n k v l d)))
            (subst Distinct (moved-touch k v l d) (Distinct-moved k v l d)))
        ∙ reading (some v) (found n k m l shown ∙ hit) (ap (λ r. r.0) (get_hit k m v hit))
  ]
    where
      After : Option V × BoundedMemo K V → Type 0
      After r = (run rest r.1).entries ≡ evict n (recency n rest (read_in k r.0 l))

      reading :
          (o : Option V)
          → value_of k (last n l) ≡ o
          → (get k m).0 ≡ o
          → evict n (recency n rest (read_in k (get k m).0 l))
            ≡ evict n (recency n rest (read_in k (value_of k (last n l)) l))
      reading o specified answered =
          ap (λ o. evict n (recency n rest (read_in k o l))) (answered ∙ sym specified)

  -- A memo that starts empty holds, after any reads and writes, the last `n` of the keys that were
  -- touched, in the order of their last touch, each under the value of that touch; and a read then
  -- answers with what stands there for its key.
  pub run-eq-recency :
      (n : ℕ) (accesses : List (Access K V))
      → let m = run accesses (empty_memo n) in
        let kept = last n (recency n accesses []) in
        (m.entries ≡ kept) × ((k : K) → (get k m).0 ≡ value_of k kept)
  unfolding empty_memo
  run-eq-recency n accesses =
      let m : BoundedMemo K V = run accesses (empty_memo n) in
      let l : List (K × V) = recency n accesses [] in
      let shown : m.entries ≡ evict n l =
        run_from n accesses (empty_memo n) [] refl (unfold evict in refl) tt in
      (shown ∙ evict-eq-drop n l, λ k. answer k m ∙ sym (found n k m l shown))
