-- ===== src/Memo/Tests.antt =====
-- Runs of the memos of src/core/memo.py on small inputs.
use claude_code_manager.Base.{
  ℕ, ◌+◌, ◌≡◌, refl, ap, none, some, arith, List, [], ◌∷◌, String, String_eq, ℕ_eq, ◌==◌,
}
use claude_code_manager.Memo.{
  empty_memo, lookup, assign, pop, move_to_end, evict, get, store, Stat, fresh, fresh_value, save,
  keys,
}
use claude_code_manager.Memo.Bounds.{
  Call, get_call, store_call, drop_call, drop_where_call, calls, IsSound, calls-IsSound,
}
use claude_code_manager.Memo.Recency.{
  Access, read, write, access, run, recency, last, value_of, run-eq-recency,
}
use claude_code_manager.Memo.Freshness.{
  World, idle, statted, parsed, set_reader, set_file, IsNew, start, Reach, here, next, take_stat,
  read_file, record_value, fresh-current, write as write_file,
}

abbrev script : List (Call String ℕ)
script =
    store_call "a" 1
    ∷ store_call "b" 2
    ∷ get_call "a"
    ∷ store_call "c" 3
    ∷ drop_where_call (λ k. k == "z")
    ∷ drop_call "c"
    ∷ []

calls-IsSound_example : IsSound 2 (calls script (empty_memo 2))
calls-IsSound_example = calls-IsSound 2 script

abbrev accesses : List (Access String ℕ)
accesses = write "a" 1 ∷ write "b" 2 ∷ read "a" ∷ write "c" 3 ∷ read "b" ∷ []

-- The read of `a` saves it, and `b` is the one that goes.
least_recent_goes : keys (run accesses (empty_memo 2)) ≡ "a" ∷ "c" ∷ []
unfolding keys run access empty_memo store get lookup assign pop move_to_end evict
least_recent_goes = refl

run-eq-recency_example :
    let m = run accesses (empty_memo 2) in
    let kept = last 2 (recency 2 accesses []) in
    (m.entries ≡ kept) × ((k : String) → (get k m).0 ≡ value_of k kept)
run-eq-recency_example = run-eq-recency 2 accesses

abbrev stat_of : ℕ → Stat
stat_of size = record { st_mtime_ns = 5; st_size = size }

abbrev before : World String ℕ ℕ
before = start (λ k. record { stat = stat_of 4; bytes = 40 }) 2

-- A write within the same tick falls between the stat and the read of the reader.
abbrev written : World String ℕ ℕ
written =
    set_file "f" (record { stat = stat_of 6; bytes = 60 })
      (set_reader 0 (statted "f" (stat_of 4)) before)

abbrev read_late : World String ℕ ℕ
read_late = set_reader 0 (parsed "f" (stat_of 4) 61) written

abbrev recorded_old : World String ℕ ℕ
recorded_old =
    set_reader 0 idle (record read_late { memo = save "f" (stat_of 4) 61 read_late.memo })

abbrev read_again : World String ℕ ℕ
read_again =
    set_reader 0 (parsed "f" (stat_of 6) 61) (set_reader 0 (statted "f" (stat_of 6)) recorded_old)

abbrev recorded : World String ℕ ℕ
recorded = set_reader 0 idle (record read_again { memo = save "f" (stat_of 6) 61 read_again.memo })

abbrev plus_one : ℕ → ℕ
plus_one n = n + 1

another_size : IsNew (5, 6) ((5, 4) ∷ [])
another_size = (impossible, tt)
  where
    impossible : ◌≡◌ {A = ℕ × ℕ} (5, 4) (5, 6) → ⊥
    impossible q = absurd (omega (arith, ap (λ p. p.1) q))

recorded-Reach : Reach plus_one before recorded
unfolding start
recorded-Reach =
    let late =
      next
        (next
          (next (next here (take_stat 0 "f"))
            (write_file "f" (record { stat = stat_of 6; bytes = 60 }) another_size))
          (read_file 0 "f" (stat_of 4) refl))
        (record_value 0 "f" (stat_of 4) 61 refl) in
    next (next (next late (take_stat 0 "f")) (read_file 0 "f" (stat_of 6) refl))
      (record_value 0 "f" (stat_of 6) 61 refl)

-- The entry under the old size is not served.
fresh-old : (fresh "f" (recorded_old.file "f").stat recorded_old.memo).0 ≡ none
unfolding start fresh fresh_value save empty_memo store get lookup assign pop move_to_end evict
fresh-old = refl

fresh-recorded : (fresh "f" (recorded.file "f").stat recorded.memo).0 ≡ some 61
unfolding start fresh fresh_value save empty_memo store get lookup assign pop move_to_end evict
fresh-recorded = refl

fresh-current_example : 61 ≡ plus_one (recorded.file "f").bytes
fresh-current_example =
    fresh-current plus_one (λ k. record { stat = stat_of 4; bytes = 40 }) 2 recorded "f" 61
      recorded-Reach fresh-recorded
