-- ===== src/Messages/Folding.antt =====
-- src/core/message_projection.py: one list after another, through the aggregator.
use claude_code_manager.Base.{
  ℕ, suc, ◌+◌, ◌≡◌, refl, ap, sym, ◌∙◌, false, List, [], ◌∷◌, ◌++◌, append_assoc, if◌then◌else◌,
  map, length, arith, Bool-cases, inl, inr,
}
use claude_code_manager.Messages.Aggregator.{
  Event, Message, Delta, message, stream, Aggregator, new_aggregator, ◌then_do◌, set,
}
use claude_code_manager.Messages.Feeding.{feed_indexed, feed_at}
use claude_code_manager.Messages.StableOrder.{Indexed, stable_history_projection}
use claude_code_manager.Messages.ClosedPrefix.{IsClosed, stable_history_projection-append}
use claude_code_manager.Messages.Projection.{messages_of, is_separator, separators_from, at_base}

pub messages_of-append :
    (ds es : List Delta) → messages_of (ds ++ es) ≡ messages_of ds ++ messages_of es
messages_of-append [] es = refl
messages_of-append (message m ∷ ds) es = ap (◌∷◌ m) (messages_of-append ds es)
messages_of-append (stream m ∷ ds) es = messages_of-append ds es

separators_from-append :
    (n k : ℕ) (ms ns : List Message)
    → k ≡ n + length ms
    → separators_from n (ms ++ ns) ≡ separators_from n ms ++ separators_from k ns
unfolding separators_from
separators_from-append n k [] ns h =
    let e : n ≡ k = omega (arith, h) in ap (λ j. separators_from j ns) e
separators_from-append n k (m ∷ ms) ns h =
    rw (separators_from-append (suc n) k ms ns (omega (arith, h))) (
      sym (
        append_assoc (if is_separator m then n ∷ [] else []) (separators_from (suc n) ms)
          (separators_from k ns)))

separators_from-shift :
    (n i k : ℕ) (ms : List Message)
    → k ≡ n + i
    → separators_from k ms ≡ map (λ j. n + j) (separators_from i ms)
unfolding separators_from
separators_from-shift n i k [] h = refl
separators_from-shift n i k (m ∷ ms) h = elim (Bool-cases (is_separator m)) [
  | inl p ↦ rw (p, separators_from-shift n (suc i) (suc k) ms (omega (arith, h)), h) refl
  | inr p ↦ rw p (separators_from-shift n (suc i) (suc k) ms (omega (arith, h)))
]

-- The positions that are found in a further part, moved behind the parts before it.
pub separators_from-fold :
    (ms ns : List Message)
    → separators_from 0 (ms ++ ns)
      ≡ separators_from 0 ms ++ map (λ j. length ms + j) (separators_from 0 ns)
separators_from-fold ms ns =
    separators_from-append 0 (length ms) ms ns (omega arith)
    ∙ ap (λ z. separators_from 0 ms ++ z)
        (separators_from-shift (length ms) 0 (length ms) ns (omega arith))

-- Feeding one list and then another.
unfoldable pub feed_both : (xs ys : List Indexed) (a : Aggregator) → Aggregator × List Delta
feed_both xs ys a =
    let (b, ds) = feed_indexed xs a in let (c, es) = feed_indexed ys b in (c, ds ++ es)

feed_indexed-append :
    (xs ys : List Indexed) (a : Aggregator) → feed_indexed (xs ++ ys) a ≡ feed_both xs ys a
unfolding feed_indexed feed_both ◌then_do◌ set
feed_indexed-append [] ys a = refl
feed_indexed-append (x ∷ xs) ys a =
    let step =
      set (λ b. record b { processed = suc b.processed })
      then_do feed_at x.1 (a.idx_offset + x.0) in
    rw (feed_indexed-append xs ys (step a).0) (
      ap (λ z. ((feed_both xs ys (step a).0).0, z))
        (sym (append_assoc (step a).1 (feed_indexed xs (step a).0).1 _)))

abbrev pub run : ℕ → List Event → Aggregator × List Delta
run offset events = feed_indexed (stable_history_projection events) (new_aggregator offset false)

-- Behind a closed prefix, the rest is folded where the prefix ended.
pub run-append :
    (offset : ℕ) (xs ys : List Event)
    → IsClosed xs
    → run offset (xs ++ ys)
      ≡ feed_both
          (stable_history_projection xs)
          (map (at_base (length xs)) (stable_history_projection ys))
          (new_aggregator offset false)
run-append offset xs ys closed =
    rw (stable_history_projection-append xs ys closed) (feed_indexed-append _ _ _)
