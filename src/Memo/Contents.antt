-- ===== src/Memo/Contents.antt =====
-- What holds of every entry of a `BoundedMemo` (src/core/memo.py), for its clients.
use claude_code_manager.Base.{ℕ, ◌≡◌, ◌∙◌, some, Eq, Option-cases, inl, inr, All, All-append}
use claude_code_manager.Memo.{BoundedMemo, empty_memo, lookup, get, store}
use claude_code_manager.Memo.Entries.{
  lookup_of_All, All-pop, All-evict, All-move_to_end, move_to_end-assign,
}

module _ {K V : Type 0} ⦃e : Eq K⦄ (P : K × V → Type 0) where
  pub All-empty_memo : (n : ℕ) → All P (empty_memo n).entries
  unfolding empty_memo
  All-empty_memo n = tt

  pub All-get : (k : K) (m : BoundedMemo K V) → All P m.entries → All P (get k m).1.entries
  unfolding get
  All-get k m h = elim (Option-cases (lookup k m.entries)) [
    | inl miss ↦ rw (miss, get) h
    | inr (v, hit) ↦ rw (hit, get) (All-move_to_end P k m.entries h)
  ]

  pub All-store :
      (k : K) (v : V) (m : BoundedMemo K V)
      → P (k, v)
      → All P m.entries
      → All P (store k v m).entries
  unfolding store
  All-store k v m new h =
      All-evict P m.limit _
        (rw move_to_end-assign (All-append P _ _ (All-pop P k m.entries h) (new, tt)))

  pub get_of_All :
      (k : K) (v : V) (m : BoundedMemo K V) → All P m.entries → (get k m).0 ≡ some v → P (k, v)
  unfolding get
  get_of_All k v m h q = elim (Option-cases (lookup k m.entries)) [
    | inl miss ↦ cc (rw (miss, get) at q)
    | inr (d, hit) ↦ lookup_of_All P k v m.entries h (hit ∙ (rw (hit, get) at q))
  ]
