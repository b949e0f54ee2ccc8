-- ===== src/Streaming/Tests.antt =====
-- Runs of src/core/streaming.py on one channel.
use claude_code_manager.Base.{◌≡◌, refl, true, some, List, [], ◌∷◌}
use claude_code_manager.Streaming.{
  Channel, draft, hiding, other, Input, joined, frame, window_ended, flush_runs, step, steps,
  broadcast, subscribe, stream_window_ended, fan_out, no_channel, drop_pending_stream,
}
use claude_code_manager.Streaming.Hiding.{drafts, hiding-drafts}
use claude_code_manager.Streaming.Coalescing.{burst, burst-wire, listening}

abbrev busy : Channel
busy = record {
  sockets = 4 ∷ [];
  timer = true;
  pending = some 8;
  flushes = [];
  wire = draft 7 ∷ [];
}

abbrev later : List Input
later = window_ended ∷ flush_runs [] ∷ frame (4 ∷ []) (other 2) ∷ []

hiding-drafts_example : drafts (steps later (broadcast [] (hiding 1) busy)).wire ≡ drafts busy.wire
hiding-drafts_example = hiding-drafts [] 1 later busy refl (refl, (refl, (refl, tt)))

burst-wire_example :
    (steps (burst 1 (2 ∷ 3 ∷ [])) (listening 4 [] [])).wire ≡ draft 1 ∷ draft 3 ∷ []
burst-wire_example = burst-wire 1 (2 ∷ 3 ∷ []) 4 [] []

-- A window ends, and a frame that hides the preview is sent before the task of its timer runs: the
-- draft follows the frame.
overtaken :
    (steps
      (joined 4
        ∷ frame [] (draft 1)
        ∷ frame [] (draft 2)
        ∷ window_ended
        ∷ frame [] (hiding 3)
        ∷ flush_runs []
        ∷ [])
      no_channel).wire
    ≡ draft 1 ∷ hiding 3 ∷ draft 2 ∷ []
unfolding steps step subscribe broadcast stream_window_ended fan_out drop_pending_stream
overtaken = refl
