-- ===== src/TraceMerge/Tests.antt =====
-- Runs of src/core/trace_merge.py.
use claude_code_manager.Base.{
  ℕ, ◌<◌, ◌≡◌, refl, none, some, List, [], ◌∷◌, ◌++◌, map, length, Text, codes, All, digits_before,
  decimal,
}
use claude_code_manager.TraceMerge.{
  new_batcher, flush, add, add_all, merged, opening, closing, between_brackets, dense_id,
  merge_batch_events,
}
use claude_code_manager.TraceMerge.Batching.{commas, merged-joined}
use claude_code_manager.TraceMerge.Numbering.{
  Call, starts, numbers, sequencer_after, given_numbers, numbered_as, dense_id-fresh,
}

-- Events that are numbers.
abbrev dumps : List ℕ → Text
dumps events = codes "[" ++ commas (map decimal events) ++ codes "]"

output : merged dumps (7 ∷ 12 ∷ []) ≡ codes "{\"traceEvents\":[7,12]}"
unfolding merged add_all add flush between_brackets commas decimal digits_before
output = refl

merged-joined_example :
    (merged dumps (7 ∷ 12 ∷ []) ≡ opening ++ commas (map decimal (7 ∷ 12 ∷ [])) ++ closing)
    × (length (add_all dumps (7 ∷ 12 ∷ []) (new_batcher opening)).pending < merge_batch_events)
merged-joined_example = merged-joined dumps decimal (7 ∷ 12 ∷ []) (λ events. refl)

-- The newest call is the first: another trace has started since the thread a got its number.
abbrev second_trace : List Call
second_trace = numbers (codes "b") ∷ starts ∷ numbers (codes "a") ∷ []

dense_id-fresh_example :
    let answer = (dense_id (codes "a") (sequencer_after second_trace)).0 in
    ((n : ℕ) → numbered_as (codes "a") second_trace ≡ some n → answer ≡ n)
    × (numbered_as (codes "a") second_trace ≡ none
        → All (λ n. n < answer) (given_numbers second_trace))
dense_id-fresh_example = dense_id-fresh (codes "a") second_trace
