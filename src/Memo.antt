-- ===== src/Memo.antt =====
-- src/core/memo.py: the LRU-capped memo that the request paths share, and the memo whose entries
-- carry a file's signature.
--
-- The `OrderedDict` is the list of its items, least recently used first. Each method holds the
-- lock for all of its body, so a method is one function from the memo to the memo. A limit is a
-- natural number (the callers pass positive constants), and `None` is no stored value, as the
-- class demands.
pub mod Entries
pub mod Contents
pub mod Bounds
pub mod Recency
pub mod Freshness
mod Tests
use claude_code_manager.Base.{
  ℕ, suc, ◌≡◌, Bool, true, false, ◌&&◌, not, Option, none, some, List, [], ◌∷◌, ◌++◌, map, ltb,
  if◌then◌else◌, length, filter, Eq, ◌==◌, ℕ_eq,
}

pub record BoundedMemo (K V : Type 0) : Type 0 where
  pub limit : ℕ
  pub entries : List (K × V)

unfoldable pub empty_memo : {K V : Type 0} → ℕ → BoundedMemo K V
empty_memo n = record { limit = n; entries = [] }

module _ {K V : Type 0} ⦃e : Eq K⦄ where
  -- `entries.get(key)`
  unfoldable pub lookup : K → List (K × V) → Option V
  lookup k [] = none
  lookup k ((j, v) ∷ l) = if j == k then some v else lookup k l

  -- `entries[key] = value`: a key that is there keeps its place.
  unfoldable pub assign : K → V → List (K × V) → List (K × V)
  assign k v [] = (k, v) ∷ []
  assign k v ((j, w) ∷ l) = if j == k then (j, v) ∷ l else (j, w) ∷ assign k v l

  -- `entries.pop(key, None)`
  unfoldable pub pop : K → List (K × V) → List (K × V)
  pop k [] = []
  pop k ((j, w) ∷ l) = if j == k then l else (j, w) ∷ pop k l

  -- `entries.move_to_end(key)`, of a key that is there
  unfoldable pub move_to_end : K → List (K × V) → List (K × V)
  unfolding lookup pop
  move_to_end k l = elim (lookup k l) [ none ↦ l | some v ↦ pop k l ++ (k, v) ∷ [] ]

  unfoldable pub get : K → BoundedMemo K V → Option V × BoundedMemo K V
  get k m = elim (lookup k m.entries) [
    | none ↦ (none, m)
    | some v ↦ (some v, record m { entries = move_to_end k m.entries })
  ]

  -- `while len(entries) > limit: entries.popitem(last=False)`
  unfoldable pub evict : ℕ → List (K × V) → List (K × V)
  evict n [] = []
  evict n (x ∷ l) = if ltb n (length (x ∷ l)) then evict n l else x ∷ l

  unfoldable pub store : K → V → BoundedMemo K V → BoundedMemo K V
  store k v m = record m { entries = evict m.limit (move_to_end k (assign k v m.entries)) }

  unfoldable pub drop_where : (K → Bool) → BoundedMemo K V → BoundedMemo K V
  drop_where p m = record m { entries = filter (λ x. not (p x.0)) m.entries }

  unfoldable pub drop_key : K → BoundedMemo K V → BoundedMemo K V
  drop_key k m = record m { entries = pop k m.entries }

  unfoldable pub clear : BoundedMemo K V → BoundedMemo K V
  clear m = record m { entries = [] }

  unfoldable pub contains : K → BoundedMemo K V → Bool
  contains k m = elim (lookup k m.entries) [ none ↦ false | some v ↦ true ]

  unfoldable pub keys : BoundedMemo K V → List K
  keys m = map (λ x. x.0) m.entries

  unfoldable pub len : BoundedMemo K V → ℕ
  len m = length m.entries

-- The two fields of `os.stat_result` that a signature is made of.
pub record Stat : Type 0 where
  pub st_mtime_ns : ℕ
  pub st_size : ℕ

unfoldable pub fresh_value : {S : Type 0} → Option (ℕ × ℕ × S) → Stat → Option S
fresh_value none st = none
fresh_value (some entry) st =
    if (entry.0 == st.st_mtime_ns) && (entry.1 == st.st_size) then some entry.2 else none

module _ {K S : Type 0} ⦃e : Eq K⦄ where
  unfoldable pub fresh : K → Stat → BoundedMemo K (ℕ × ℕ × S) → Option S × BoundedMemo K (ℕ × ℕ × S)
  fresh k st m = let (entry, m') = get k m in (fresh_value entry st, m')

  unfoldable pub save : K → Stat → S → BoundedMemo K (ℕ × ℕ × S) → BoundedMemo K (ℕ × ℕ × S)
  save k st value = store k (st.st_mtime_ns, st.st_size, value)
