-- ===== src/TraceMerge/Batching.antt =====
-- The output of the batches, against the events one by one (src/core/trace_merge.py).
use claude_code_manager.Base.{
  ℕ, ◌-◌, ◌<◌, ◌≡◌, refl, sym, ap, ◌∙◌, Bool, true, not, List, [], ◌∷◌, ◌++◌, map, map-append,
  if◌then◌else◌, leb, length, length-append, take, take-append_le, take_of_le, drop, is_empty, Text,
  codes, append-nil, append_assoc, arith, Bool-cases, inl, inr,
}
use claude_code_manager.TraceMerge.{
  EventBatcher, new_batcher, between_brackets, flush, add, add_all, merged, opening, closing,
  merge_batch_events,
}

-- Texts with commas between them.
unfoldable pub commas : List Text → Text
commas [] = []
commas (x ∷ []) = x
commas (x ∷ y ∷ xs) = x ++ codes "," ++ commas (y ∷ xs)

-- A list is rendered as its elements are, whatever stands beside them.
abbrev pub IsContextFree : {E : Type 0} → (List E → Text) → (E → Text) → Type 0
IsContextFree {E} dumps render =
    (events : List E) → dumps events ≡ codes "[" ++ commas (map render events) ++ codes "]"

take-one_less : (s : Text) (c : ℕ) → take (length (s ++ c ∷ []) - 1) (s ++ c ∷ []) ≡ s
take-one_less s c =
    let e : length (s ++ c ∷ []) - 1 ≡ length s = omega (arith, length-append s (c ∷ [])) in
    rw e
      (take-append_le (length s) s (c ∷ []) (omega arith) ∙ take_of_le (length s) s (omega arith))

between_brackets-brackets : (s : Text) → between_brackets (codes "[" ++ s ++ codes "]") ≡ s
unfolding between_brackets
between_brackets-brackets s = ap (drop 1) (take-one_less (b'[' ∷ s) b']')

commas-append :
    (xs : List Text) (y : Text) (ys : List Text)
    → commas (xs ++ y ∷ ys)
      ≡ (commas xs ++ (if is_empty xs then [] else codes ",")) ++ commas (y ∷ ys)
unfolding commas
commas-append [] y ys = refl
commas-append (x ∷ []) y ys = refl
commas-append (x ∷ z ∷ xs) y ys =
    let front = x ++ codes "," in
    let inner = commas (z ∷ xs) in
    let rest = commas (y ∷ ys) in
    ap (λ t. front ++ t) (commas-append (z ∷ xs) y ys)
    ∙ (sym (append_assoc front (inner ++ codes ",") rest)
        ∙ ap (λ t. t ++ rest) (sym (append_assoc front inner (codes ","))))

module _ {E : Type 0} (dumps : List E → Text) (render : E → Text) where
  abbrev rendered : List E → Text
  rendered events = commas (map render events)

  abbrev separator : List E → Text
  separator done = if not (is_empty done) then codes "," else []

  rendered-append :
      (done : List E) (p : E) (ps : List E)
      → rendered (done ++ p ∷ ps) ≡ (rendered done ++ separator done) ++ rendered (p ∷ ps)
  unfolding commas
  rendered-append [] p ps = refl
  rendered-append (e ∷ done) p ps =
      ap commas (map-append render (e ∷ done) (p ∷ ps))
      ∙ commas-append (map render (e ∷ done)) (render p) (map render ps)

  written_text :
      (head : Text) (done : List E) (p : E) (ps : List E)
      → IsContextFree dumps render
      → ((head ++ rendered done) ++ separator done) ++ between_brackets (dumps (p ∷ ps))
        ≡ head ++ rendered (done ++ p ∷ ps)
  written_text head done p ps free =
      let batch : between_brackets (dumps (p ∷ ps)) ≡ rendered (p ∷ ps) =
        ap between_brackets (free (p ∷ ps)) ∙ between_brackets-brackets (rendered (p ∷ ps)) in
      rw (batch, rendered-append done p ps)
        (ap (λ t. t ++ rendered (p ∷ ps)) (append_assoc head (rendered done) (separator done))
          ∙ append_assoc head (rendered done ++ separator done) (rendered (p ∷ ps)))

  -- The output has the events of `done` behind `head`.
  record IsBatching (head : Text) (done : List E) (b : EventBatcher E) : Type 0 where
    text : b.output ≡ head ++ rendered done
    emitted : b.emitted_any ≡ not (is_empty done)

  not_empty : (done : List E) (p : E) (ps : List E) → true ≡ not (is_empty (done ++ p ∷ ps))
  not_empty [] p ps = refl
  not_empty (e ∷ done) p ps = refl

  flush-IsBatching :
      (head : Text) (done : List E) (pending : List E) (output : Text) (emitted : Bool)
      → IsContextFree dumps render
      → output ≡ head ++ rendered done
      → emitted ≡ not (is_empty done)
      → IsBatching head
          (done ++ pending)
          (flush dumps (record { output = output; pending = pending; emitted_any = emitted }))
  unfolding flush
  flush-IsBatching head done [] output emitted free text flag =
      rw (append-nil done) (record { text = text; emitted = flag })
  flush-IsBatching head done (p ∷ ps) output emitted free text flag = record {
    text = rw (text, flag) (written_text head done p ps free);
    emitted = not_empty done p ps;
  }

  flush-pending :
      (pending : List E) (output : Text) (emitted : Bool)
      → (flush dumps (record { output = output; pending = pending; emitted_any = emitted })).pending
        ≡ []
  unfolding flush
  flush-pending [] output emitted = refl
  flush-pending (p ∷ ps) output emitted = refl

  -- Every event of `events` is written or waits, and fewer wait than a batch has.
  record IsKept (head : Text) (events : List E) (b : EventBatcher E) : Type 0 where
    done : List E
    whole : done ++ b.pending ≡ events
    batching : IsBatching head done b
    few : length b.pending < merge_batch_events

  add-IsKept :
      (head : Text) (events : List E) (event : E) (b : EventBatcher E)
      → IsContextFree dumps render
      → IsKept head events b
      → IsKept head (events ++ event ∷ []) (add dumps event b)
  unfolding add
  add-IsKept head events event b free h =
      let longer : List E = b.pending ++ event ∷ [] in
      let whole : h.done ++ longer ≡ events ++ event ∷ [] =
        sym (append_assoc h.done b.pending (event ∷ [])) ∙ ap (λ l. l ++ event ∷ []) h.whole in
      elim (Bool-cases (leb merge_batch_events (length longer))) [
        | inl full ↦
            let empty = flush-pending longer b.output b.emitted_any in
            rw full (record {
              done = h.done ++ longer;
              whole = rw empty (append-nil (h.done ++ longer) ∙ whole);
              batching =
                  flush-IsBatching head h.done longer b.output b.emitted_any free h.batching.text
                    h.batching.emitted;
              few = rw empty (omega arith);
            })
        | inr room ↦ rw room (record {
          done = h.done;
          whole = whole;
          batching = record { text = h.batching.text; emitted = h.batching.emitted };
          few = ground (arith, room);
        })
      ]

  add_all-IsKept :
      (head : Text) (before : List E) (events : List E) (b : EventBatcher E)
      → IsContextFree dumps render
      → IsKept head before b
      → IsKept head (before ++ events) (add_all dumps events b)
  unfolding add_all
  add_all-IsKept head before [] b free h = rw (append-nil before) h
  add_all-IsKept head before (event ∷ events) b free h =
      rw (sym (append_assoc before (event ∷ []) events)) (
        add_all-IsKept head (before ++ event ∷ []) events (add dumps event b) free
          (add-IsKept head before event b free h))

  -- However many events the traces yield: where the encoder renders a list as it renders the elements,
  -- the output is the same as that of the events one by one, with commas between them, inside the
  -- frame of a trace; and never more events wait than fit below a batch.
  pub merged-joined :
      (events : List E)
      → IsContextFree dumps render
      → (merged dumps events ≡ opening ++ commas (map render events) ++ closing)
        × (length (add_all dumps events (new_batcher opening)).pending < merge_batch_events)
  unfolding merged commas
  merged-joined events free =
      let b = add_all dumps events (new_batcher opening) in
      let kept : IsKept opening events b =
        add_all-IsKept opening [] events (new_batcher opening) free (record {
          done = [];
          whole = refl;
          batching = record { text = refl; emitted = refl };
          few = omega arith;
        }) in
      let out =
        flush-IsBatching opening kept.done b.pending b.output b.emitted_any free kept.batching.text
          kept.batching.emitted in
      (ap (λ t. t ++ closing) (out.text ∙ ap (λ l. opening ++ rendered l) kept.whole), kept.few)
