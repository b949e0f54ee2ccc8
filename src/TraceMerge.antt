-- ===== src/TraceMerge.antt =====
-- src/core/trace_merge.py: how merged events reach the output, in batches, and the numbers that
-- stand for the ids of the traces.
--
-- `dumps` is orjson.dumps of a list of events. The output is the text that is written to the
-- compressed stream.
pub mod Batching
pub mod Numbering
mod Tests
use claude_code_manager.Base.{
  ℕ, suc, ◌+◌, ◌-◌, Bool, true, false, Option, none, some, List, [], ◌∷◌, ◌++◌, if◌then◌else◌, leb,
  length, take, drop, is_empty, Text, codes, Text_eq,
}
use claude_code_manager.Memo.{lookup, assign}

abbrev pub merge_batch_events : ℕ
merge_batch_events = 512

pub record EventBatcher (E : Type 0) : Type 0 where
  pub output : Text
  pub pending : List E
  pub emitted_any : Bool

abbrev pub new_batcher : {E : Type 0} → Text → EventBatcher E
new_batcher output = record { output = output; pending = []; emitted_any = false }

-- `text[1:-1]`, of a text with brackets around it
unfoldable pub between_brackets : Text → Text
between_brackets s = drop 1 (take (length s - 1) s)

abbrev pub opening : Text
opening = codes "{\"traceEvents\":["

abbrev pub closing : Text
closing = codes "]}"

module _ {E : Type 0} (dumps : List E → Text) where
  abbrev batch_written : EventBatcher E → EventBatcher E
  batch_written b = record {
    output =
        (b.output ++ (if b.emitted_any then codes "," else []))
        ++ between_brackets (dumps b.pending);
    pending = [];
    emitted_any = true;
  }

  unfoldable pub flush : EventBatcher E → EventBatcher E
  flush b = if is_empty b.pending then b else batch_written b

  abbrev buffered : E → EventBatcher E → EventBatcher E
  buffered event b = record b { pending = b.pending ++ event ∷ [] }

  unfoldable pub add : E → EventBatcher E → EventBatcher E
  add event b =
      if leb merge_batch_events (length (buffered event b).pending)
      then flush (buffered event b)
      else buffered event b

  unfoldable pub add_all : List E → EventBatcher E → EventBatcher E
  add_all [] b = b
  add_all (event ∷ events) b = add_all events (add event b)

  -- What `_merge_all` writes for the events that the traces yield.
  unfoldable pub merged : List E → Text
  merged events = (flush (add_all events (new_batcher opening))).output ++ closing

-- The keys are the texts of the ids.
pub record IdSequencer : Type 0 where
  pub next_id : ℕ
  pub seen : List (Text × ℕ)

abbrev pub new_sequencer : IdSequencer
new_sequencer = record { next_id = 1; seen = [] }

unfoldable pub start_trace : IdSequencer → IdSequencer
start_trace seq = record seq { seen = [] }

abbrev pub dense_id_from : Text → IdSequencer → Option ℕ → ℕ × IdSequencer
dense_id_from key seq (some mapped) = (mapped, seq)
dense_id_from key seq none =
    (seq.next_id, record { next_id = suc seq.next_id; seen = assign key seq.next_id seq.seen })

unfoldable pub dense_id : Text → IdSequencer → ℕ × IdSequencer
dense_id key seq = dense_id_from key seq (lookup key seq.seen)
