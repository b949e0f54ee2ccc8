-- ===== src/Streaming/Coalescing.antt =====
-- What src/core/streaming.py makes of a burst of drafts.
use claude_code_manager.Base.{
  ℕ, ◌≡◌, refl, sym, ◌∙◌, true, false, Option, none, some, List, [], ◌∷◌, ◌++◌, append_assoc,
  append-nil,
}
use claude_code_manager.Streaming.{
  Frame, draft, Channel, fan_out, broadcast, stream_window_ended, Input, frame, window_ended,
  flush_runs, step, steps, without,
}

abbrev pub broadcasts : List ℕ → List Input
broadcasts [] = []
broadcasts (d ∷ ds) = frame [] (draft d) ∷ broadcasts ds

-- A burst: drafts, the end of the window, and the task that its timer makes.
abbrev pub burst : ℕ → List ℕ → List Input
burst d ds = frame [] (draft d) ∷ (broadcasts ds ++ window_ended ∷ flush_runs [] ∷ [])

abbrev pub last_draft : Option ℕ → List ℕ → Option ℕ
last_draft o [] = o
last_draft o (d ∷ ds) = last_draft (some d) ds

abbrev pub sent : Option ℕ → List Frame
sent none = []
sent (some d) = draft d ∷ []

-- The state within a window: what is pending, and what has been sent.
abbrev window : ℕ → List ℕ → Option ℕ → List Frame → Channel
window s ss pending wire = record {
  sockets = s ∷ ss;
  timer = true;
  pending = pending;
  flushes = [];
  wire = wire;
}

window-wire :
    (s : ℕ) (ss ds : List ℕ) (o : Option ℕ) (wire : List Frame)
    → (steps (broadcasts ds ++ window_ended ∷ flush_runs [] ∷ []) (window s ss o wire)).wire
      ≡ wire ++ sent (last_draft o ds)
unfolding steps step broadcast stream_window_ended fan_out
window-wire s ss [] none wire = sym (append-nil wire)
window-wire s ss [] (some d) wire = refl
window-wire s ss (d ∷ ds) o wire = window-wire s ss ds (some d) wire

-- Sockets that listen, and no draft that waits.
abbrev pub listening : ℕ → List ℕ → List Frame → Channel
listening s ss wire = record {
  sockets = s ∷ ss;
  timer = false;
  pending = none;
  flushes = [];
  wire = wire;
}

-- Of a burst of drafts to sockets that listen, the first is sent at once and, of the others, the
-- newest when the window ends; the drafts between are never sent.
pub burst-wire :
    (d : ℕ) (ds : List ℕ) (s : ℕ) (ss : List ℕ) (wire : List Frame)
    → (steps (burst d ds) (listening s ss wire)).wire
      ≡ wire ++ (draft d ∷ sent (last_draft none ds))
unfolding steps step broadcast fan_out
burst-wire d ds s ss wire =
    window-wire s (without [] ss) ds none (wire ++ draft d ∷ [])
    ∙ append_assoc wire (draft d ∷ []) (sent (last_draft none ds))
