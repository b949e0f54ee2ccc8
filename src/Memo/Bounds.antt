-- ===== src/Memo/Bounds.antt =====
-- What every run of `BoundedMemo` (src/core/memo.py) keeps: the limit, and one entry to a key.
use claude_code_manager.Base.{
  ℕ, zero, suc, ◌≤◌, ◌<◌, ◌≡◌, refl, Bool, not, some, List, [], ◌∷◌, ◌++◌, length, Eq, Option-cases,
  length-append, arith, inl, inr,
}
use claude_code_manager.Memo.{
  BoundedMemo, empty_memo, lookup, assign, pop, move_to_end, evict, get, store, drop_where,
  drop_key, clear,
}
use claude_code_manager.Memo.Entries.{
  Absent, Distinct, move_to_end-assign, length-pop, length-pop-le, length-filter-le,
  length-evict-le, Distinct-pop, Distinct-evict, Distinct-filter, Distinct-snoc, Absent-pop,
}

-- A call of one of the methods that change the memo.
pub data Call (K V : Type 0) : Type 0 where
  get_call : K → Call K V
  store_call : K → V → Call K V
  drop_where_call : (K → Bool) → Call K V
  drop_call : K → Call K V
  clear_call : Call K V

module _ {K V : Type 0} ⦃e : Eq K⦄ where
  unfoldable pub call : Call K V → BoundedMemo K V → BoundedMemo K V
  call (get_call k) m = (get k m).1
  call (store_call k v) m = store k v m
  call (drop_where_call p) m = drop_where p m
  call (drop_call k) m = drop_key k m
  call clear_call m = clear m

  unfoldable pub calls : List (Call K V) → BoundedMemo K V → BoundedMemo K V
  calls [] m = m
  calls (c ∷ cs) m = calls cs (call c m)

  pub record IsSound (n : ℕ) (m : BoundedMemo K V) : Type 0 where
    pub same_limit : m.limit ≡ n
    pub fits : length m.entries ≤ n
    pub distinct : Distinct m.entries

  move_to_end-Distinct : (k : K) (l : List (K × V)) → Distinct l → Distinct (move_to_end k l)
  unfolding move_to_end
  move_to_end-Distinct k l d = elim (Option-cases (lookup k l)) [
    | inl miss ↦ rw (miss, move_to_end) d
    | inr (v, hit) ↦
        rw (hit, move_to_end) (Distinct-snoc _ k v (Distinct-pop k l d) (Absent-pop k l d))
  ]

  length-move_to_end : (k : K) (l : List (K × V)) → length (move_to_end k l) ≡ length l
  unfolding move_to_end
  length-move_to_end k l = elim (Option-cases (lookup k l)) [
    | inl miss ↦ rw (miss, move_to_end)
    | inr (v, hit) ↦
        rw (hit, move_to_end)
          (omega (arith, length-append (pop k l) ((k, v) ∷ []), length-pop k l v hit))
  ]

  get-IsSound : (n : ℕ) (k : K) (m : BoundedMemo K V) → IsSound n m → IsSound n (get k m).1
  unfolding get
  get-IsSound n k m h = elim (Option-cases (lookup k m.entries)) [
    | inl miss ↦ rw (miss, get) h
    | inr (v, hit) ↦
        rw (hit, get)
          (record {
            same_limit = h.same_limit;
            fits = rw (length-move_to_end k m.entries) h.fits;
            distinct = move_to_end-Distinct k m.entries h.distinct;
          })
  ]

  store-IsSound :
      (n : ℕ) (k : K) (v : V) (m : BoundedMemo K V) → IsSound n m → IsSound n (store k v m)
  unfolding store
  store-IsSound n k v m h = record {
    same_limit = h.same_limit;
    fits = rw (h.same_limit) (length-evict-le n _);
    distinct = Distinct-evict m.limit _ (
        rw move_to_end-assign
          (Distinct-snoc _ k v (Distinct-pop k _ h.distinct) (Absent-pop k _ h.distinct)));
  }

  call-IsSound : (n : ℕ) (c : Call K V) (m : BoundedMemo K V) → IsSound n m → IsSound n (call c m)
  unfolding call drop_where drop_key clear
  call-IsSound n (get_call k) m h = get-IsSound n k m h
  call-IsSound n (store_call k v) m h = store-IsSound n k v m h
  call-IsSound n (drop_where_call p) m h = record {
    same_limit = h.same_limit;
    fits = omega (arith, length-filter-le (λ x. not (p x.0)) m.entries, h.fits);
    distinct = Distinct-filter (λ x. not (p x.0)) m.entries h.distinct;
  }
  call-IsSound n (drop_call k) m h = record {
    same_limit = h.same_limit;
    fits = omega (arith, length-pop-le k m.entries, h.fits);
    distinct = Distinct-pop k m.entries h.distinct;
  }
  call-IsSound n clear_call m h = record {
    same_limit = h.same_limit;
    fits = omega arith;
    distinct = tt;
  }

  pub calls-IsSound_from :
      (n : ℕ) (cs : List (Call K V)) (m : BoundedMemo K V) → IsSound n m → IsSound n (calls cs m)
  unfolding calls
  calls-IsSound_from n [] m h = h
  calls-IsSound_from n (c ∷ cs) m h = calls-IsSound_from n cs (call c m) (call-IsSound n c m h)

  -- Whatever calls are made, in whatever order, a memo that starts empty keeps its limit, holds at
  -- most that many entries, and holds no key twice.
  pub calls-IsSound :
      (n : ℕ) (cs : List (Call K V)) → IsSound n (calls cs (empty_memo {K = K} {V = V} n))
  unfolding empty_memo
  calls-IsSound n cs =
      calls-IsSound_from n cs _ (record { same_limit = refl; fits = omega arith; distinct = tt })

  -- The newest entry survives the eviction.
  lookup-evict_last :
      (n : ℕ) (k : K) (v : V) (l : List (K × V))
      → Absent k l
      → lookup k (evict (suc n) (l ++ (k, v) ∷ [])) ≡ some v
  unfolding lookup evict
  lookup-evict_last n k v [] a = ground (arith, e.beq_iff k k)
  lookup-evict_last n k v ((j, w) ∷ l) a =
      ground (arith, lookup-evict_last n k v l a.1, lookup_last k v l a.1)
    where
      lookup_last :
          (k : K) (v : V) (l : List (K × V)) → Absent k l → lookup k (l ++ (k, v) ∷ []) ≡ some v
      lookup_last k v [] a = ground (arith, e.beq_iff k k)
      lookup_last k v ((j, w) ∷ l) a = ground (arith, lookup_last k v l a.1)

  -- Where the limit is positive and no key stands twice, `get` after `store` of the same key
  -- returns the value that was stored.
  pub get-store_self :
      (n : ℕ) (k : K) (v : V) (m : BoundedMemo K V)
      → 0 < n
      → IsSound n m
      → (get k (store k v m)).0 ≡ some v
  unfolding get store
  get-store_self zero k v m pos h = absurd (omega arith)
  get-store_self (suc n) k v m pos h =
      let found : lookup k (evict m.limit (move_to_end k (assign k v m.entries))) ≡ some v =
        rw (h.same_limit, move_to_end-assign)
          (lookup-evict_last n k v (pop k m.entries) (Absent-pop k m.entries h.distinct)) in
      rw (found, get)
