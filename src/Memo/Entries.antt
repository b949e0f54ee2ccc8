-- ===== src/Memo/Entries.antt =====
-- Laws of the ordered entries behind `BoundedMemo` (src/core/memo.py).
use claude_code_manager.Base.{
  ℕ, zero, suc, ltb→lt, ltb_false→le, ◌+◌, ◌-◌, ◌≤◌, ◌≡◌, refl, ap, inl, inr, Bool, false, none,
  some, List, [], ◌∷◌, ◌++◌, ltb, length, drop, filter, Eq, ◌==◌, Bool-cases, Option-cases, subst,
  All-append, All, arith,
}
use claude_code_manager.Memo.{lookup, assign, pop, move_to_end, evict}

drop_nil : {A : Type 0} (n : ℕ) → drop {A = A} n [] ≡ []
drop_nil zero = refl
drop_nil (suc n) = refl

==-flip : {K : Type 0} ⦃e : Eq K⦄ (j k : K) → (j == k) ≡ false → (k == j) ≡ false
==-flip ⦃e⦄ j k h = ground (arith, e.beq_iff j k, e.beq_iff k j)

module _ {K V : Type 0} ⦃e : Eq K⦄ where
  -- No key of the list is `k`.
  abbrev pub Absent : K → List (K × V) → Type 0
  Absent k = All (λ x. (x.0 == k) ≡ false)

  -- No key occurs twice.
  abbrev pub Distinct : List (K × V) → Type 0
  Distinct [] = Unit
  Distinct (x ∷ l) = Absent x.0 l × Distinct l

  pub lookup-Absent : (k : K) (l : List (K × V)) → Absent k l → lookup k l ≡ none
  unfolding lookup
  lookup-Absent k [] h = refl
  lookup-Absent k ((j, w) ∷ l) h = rw h.0 (lookup-Absent k l h.1)

  pub pop-Absent : (k : K) (l : List (K × V)) → Absent k l → pop k l ≡ l
  unfolding pop
  pop-Absent k [] h = refl
  pop-Absent k ((j, w) ∷ l) h = rw h.0 (ap (◌∷◌ (j, w)) (pop-Absent k l h.1))

  pub lookup-assign : (k : K) (v : V) (l : List (K × V)) → lookup k (assign k v l) ≡ some v
  unfolding lookup assign
  lookup-assign k v [] = ground (arith, e.beq_iff k k)
  lookup-assign k v ((j, w) ∷ l) = ground (arith, lookup-assign k v l)

  pub lookup-assign_other :
      (k j : K) (v : V) (l : List (K × V)) → (k == j) ≡ false → lookup j (assign k v l) ≡ lookup j l
  unfolding lookup assign
  lookup-assign_other k j v [] h = rw h refl
  lookup-assign_other k j v ((i, w) ∷ l) h = elim (Bool-cases (i == k)) [
    | inl same ↦
        let q : i ≡ k = (e.beq_iff i k).0 same in
        let apart : (i == j) ≡ false = rw q h in rw same (rw apart refl)
    | inr other ↦ rw other (elim (Bool-cases (i == j)) [
      | inl here ↦ rw here refl
      | inr there ↦ rw there (lookup-assign_other k j v l h)
    ])
  ]

  pub pop-assign : (k : K) (v : V) (l : List (K × V)) → pop k (assign k v l) ≡ pop k l
  unfolding pop assign
  pop-assign k v [] = ground (arith, e.beq_iff k k)
  pop-assign k v ((j, w) ∷ l) = ground (arith, pop-assign k v l)

  -- What `store` does before it evicts: the key leaves its place and goes last.
  pub move_to_end-assign :
      (k : K) (v : V) (l : List (K × V)) → move_to_end k (assign k v l) ≡ pop k l ++ (k, v) ∷ []
  unfolding move_to_end
  move_to_end-assign k v l = rw (lookup-assign, move_to_end, pop-assign)

  pub lookup-append :
      (k : K) (xs ys : List (K × V))
      → lookup k (xs ++ ys) ≡ elim (lookup k xs) [ none ↦ lookup k ys | some v ↦ some v ]
  unfolding lookup
  lookup-append k [] ys = refl
  lookup-append k ((j, w) ∷ xs) ys = ground (arith, lookup-append k xs ys)

  pub length-pop-le : (k : K) (l : List (K × V)) → length (pop k l) ≤ length l
  unfolding pop
  length-pop-le k [] = omega arith
  length-pop-le k ((j, w) ∷ l) = ground (arith, length-pop-le k l)

  pub length-pop :
      (k : K) (l : List (K × V)) (v : V) → lookup k l ≡ some v → length (pop k l) + 1 ≡ length l
  unfolding pop lookup
  length-pop k [] v h = cc
  length-pop k ((j, w) ∷ l) v h = ground (arith, length-pop k l v)

  -- The loop of `store` keeps the last `n` entries.
  pub evict-eq-drop : (n : ℕ) (l : List (K × V)) → evict n l ≡ drop (length l - n) l
  unfolding evict
  evict-eq-drop n [] = rw (drop_nil (0 - n))
  evict-eq-drop n (x ∷ l) = elim (Bool-cases (ltb n (length (x ∷ l)))) [
    | inl over ↦
        let e : length (x ∷ l) - n ≡ suc (length l - n) = omega (arith, ltb→lt _ _ over) in
        rw over (rw e (evict-eq-drop n l))
    | inr fits ↦
        let e : length (x ∷ l) - n ≡ 0 = omega (arith, ltb_false→le _ _ fits) in rw (fits, e)
  ]

  pub lookup_of_All {ℓ} :
      (P : K × V → Type ℓ) (k : K) (v : V) (l : List (K × V))
      → All P l
      → lookup k l ≡ some v
      → P (k, v)
  unfolding lookup
  lookup_of_All P k v [] h q = cc
  lookup_of_All P k v ((j, w) ∷ l) h q = elim (Bool-cases (j == k)) [
    | inl here ↦
        let same : ◌≡◌ {A = K × V} (j, w) (k, v) = ground (arith, e.beq_iff j k) in subst P same h.0
    | inr other ↦ lookup_of_All P k v l h.1 (rw other at q)
  ]

  pub All-assign {ℓ} :
      (P : K × V → Type ℓ) (k : K) (v : V) (l : List (K × V))
      → All P l
      → P (k, v)
      → All P (assign k v l)
  unfolding assign
  All-assign P k v [] h q = (q, tt)
  All-assign P k v ((j, w) ∷ l) h q = elim (Bool-cases (j == k)) [
    | inl here ↦
        let same : ◌≡◌ {A = K × V} (k, v) (j, v) = ground (arith, e.beq_iff j k) in
        rw here (subst P same q, h.1)
    | inr other ↦ rw other (h.0, All-assign P k v l h.1 q)
  ]

  pub All-pop {ℓ} : (P : K × V → Type ℓ) (k : K) (l : List (K × V)) → All P l → All P (pop k l)
  unfolding pop
  All-pop P k [] h = tt
  All-pop P k ((j, w) ∷ l) h = elim (Bool-cases (j == k)) [
    | inl here ↦ rw here h.1
    | inr other ↦ rw other (h.0, All-pop P k l h.1)
  ]

  pub All-evict {ℓ} : (P : K × V → Type ℓ) (n : ℕ) (l : List (K × V)) → All P l → All P (evict n l)
  unfolding evict
  All-evict P n [] h = tt
  All-evict P n (x ∷ l) h = elim (Bool-cases (ltb n (length (x ∷ l)))) [
    | inl over ↦ rw over (All-evict P n l h.1)
    | inr fits ↦ rw fits h
  ]

  pub All-move_to_end {ℓ} :
      (P : K × V → Type ℓ) (k : K) (l : List (K × V)) → All P l → All P (move_to_end k l)
  unfolding move_to_end
  All-move_to_end P k l h = elim (Option-cases (lookup k l)) [
    | inl miss ↦ rw (miss, move_to_end) h
    | inr (v, hit) ↦
        rw (hit, move_to_end) (All-append P _ _ (All-pop P k l h) (lookup_of_All P k v l h hit, tt))
  ]

  pub Distinct-pop : (k : K) (l : List (K × V)) → Distinct l → Distinct (pop k l)
  unfolding pop
  Distinct-pop k [] h = tt
  Distinct-pop k ((j, w) ∷ l) h = elim (Bool-cases (j == k)) [
    | inl here ↦ rw here h.1
    | inr other ↦ rw other (All-pop _ k l h.0, Distinct-pop k l h.1)
  ]

  pub Absent-pop : (k : K) (l : List (K × V)) → Distinct l → Absent k (pop k l)
  unfolding pop
  Absent-pop k [] h = tt
  Absent-pop k ((j, w) ∷ l) h = elim (Bool-cases (j == k)) [
    | inl here ↦ rw here (subst (λ i. Absent i l) ((e.beq_iff j k).0 here) h.0)
    | inr other ↦ rw other (other, Absent-pop k l h.1)
  ]

  pub Distinct-snoc :
      (l : List (K × V)) (k : K) (v : V) → Distinct l → Absent k l → Distinct (l ++ (k, v) ∷ [])
  Distinct-snoc [] k v d a = (tt, tt)
  Distinct-snoc (x ∷ l) k v d a =
      (All-append _ l _ d.0 (==-flip x.0 k a.0, tt), Distinct-snoc l k v d.1 a.1)

  pub Distinct-evict : (n : ℕ) (l : List (K × V)) → Distinct l → Distinct (evict n l)
  unfolding evict
  Distinct-evict n [] h = tt
  Distinct-evict n (x ∷ l) h = elim (Bool-cases (ltb n (length (x ∷ l)))) [
    | inl over ↦ rw over (Distinct-evict n l h.1)
    | inr fits ↦ rw fits h
  ]

  All-filter {ℓ} :
      (P : K × V → Type ℓ) (p : K × V → Bool) (l : List (K × V)) → All P l → All P (filter p l)
  All-filter P p [] h = tt
  All-filter P p (x ∷ l) h = elim (Bool-cases (p x)) [
    | inl keep ↦ rw keep (h.0, All-filter P p l h.1)
    | inr out ↦ rw out (All-filter P p l h.1)
  ]

  pub Distinct-filter : (p : K × V → Bool) (l : List (K × V)) → Distinct l → Distinct (filter p l)
  Distinct-filter p [] h = tt
  Distinct-filter p (x ∷ l) h = elim (Bool-cases (p x)) [
    | inl keep ↦ rw keep (All-filter _ p l h.0, Distinct-filter p l h.1)
    | inr out ↦ rw out (Distinct-filter p l h.1)
  ]

  pub length-filter-le : (p : K × V → Bool) (l : List (K × V)) → length (filter p l) ≤ length l
  length-filter-le p [] = omega arith
  length-filter-le p (x ∷ l) = ground (arith, length-filter-le p l)

  pub length-evict-le : (n : ℕ) (l : List (K × V)) → length (evict n l) ≤ n
  unfolding evict
  length-evict-le n [] = omega arith
  length-evict-le n (x ∷ l) = ground (arith, length-evict-le n l)
