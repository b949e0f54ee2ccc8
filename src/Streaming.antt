-- ===== src/Streaming.antt =====
-- src/core/streaming.py: the fan-out of frames to the sockets of one channel, and the coalescing of
-- drafts.
--
-- Channels do not share state, so the state is one channel's. A fan-out is one step: it puts the
-- frame on the wire where a socket listens, and drops the sockets that fail, which are part of the
-- input. The timer's callback only creates the task that sends the pending draft: that task runs at
-- an input of its own. `wire` lists what was sent, in order.
pub mod Coalescing
pub mod Hiding
mod Tests
use claude_code_manager.Base.{
  ℕ, ◌≡◌, Bool, true, false, not, ◌&&◌, ◌||◌, Option, none, some, List, [], ◌∷◌, ◌++◌,
  if◌then◌else◌, is_empty, any, filter, nat_eq,
}

-- A draft, a frame that hides the preview, or any other frame.
pub data Frame : Type 0 where
  draft hiding other : ℕ → Frame

pub record Channel : Type 0 where
  pub sockets : List ℕ
  pub timer : Bool
  pub pending : Option ℕ
  pub flushes : List ℕ
  pub wire : List Frame

abbrev pub no_channel : Channel
no_channel = record { sockets = []; timer = false; pending = none; flushes = []; wire = [] }

abbrev pub without : List ℕ → List ℕ → List ℕ
without dead sockets = filter (λ s. not (any (nat_eq s) dead)) sockets

unfoldable pub subscribe : ℕ → Channel → Channel
subscribe ws c = record c {
  sockets = if any (nat_eq ws) c.sockets then c.sockets else ws ∷ c.sockets;
}

-- `_drop_pending_stream`
unfoldable pub drop_pending_stream : Channel → Channel
drop_pending_stream c = record c { timer = false; pending = none }

-- The end of `unsubscribe`, at the sockets that are left.
abbrev pub leave : List ℕ → Channel → Channel
leave [] c = drop_pending_stream (record c { sockets = [] })
leave (s ∷ ss) c = record c { sockets = s ∷ ss }

unfoldable pub unsubscribe : ℕ → Channel → Channel
unsubscribe ws c = leave (without (ws ∷ []) c.sockets) c

-- `_fan_out` and `_send_all`
unfoldable pub fan_out : List ℕ → Frame → Channel → Channel
fan_out dead frame c =
    if is_empty c.sockets
    then c
    else record c { sockets = without dead c.sockets; wire = c.wire ++ frame ∷ [] }

unfoldable pub broadcast : List ℕ → Frame → Channel → Channel
broadcast dead (draft d) c =
    if is_empty c.sockets
    then c
    else if c.timer
    then record c { pending = some d }
    else fan_out dead (draft d) (record c { timer = true })
broadcast dead (hiding f) c = fan_out dead (hiding f) (drop_pending_stream c)
broadcast dead (other f) c = fan_out dead (other f) c

abbrev pub task_of : Option ℕ → List ℕ
task_of none = []
task_of (some d) = d ∷ []

-- `_stream_window_ended`, which only a timer that runs calls
unfoldable pub stream_window_ended : Channel → Channel
stream_window_ended c =
    if c.timer
    then record c { timer = false; pending = none; flushes = c.flushes ++ task_of c.pending }
    else c

-- The oldest task that waits to send a draft.
abbrev pub run_flush : List ℕ → List ℕ → Channel → Channel
run_flush dead [] c = c
run_flush dead (d ∷ ds) c = fan_out dead (draft d) (record c { flushes = ds })

unfoldable pub close_all : Channel → Channel
close_all c = drop_pending_stream c

pub data Input : Type 0 where
  joined left : ℕ → Input
  frame : List ℕ → Frame → Input
  window_ended closed : Input
  flush_runs : List ℕ → Input

unfoldable pub step : Input → Channel → Channel
step (joined ws) c = subscribe ws c
step (left ws) c = unsubscribe ws c
step (frame dead f) c = broadcast dead f c
step window_ended c = stream_window_ended c
step closed c = close_all c
step (flush_runs dead) c = run_flush dead c.flushes c

unfoldable pub steps : List Input → Channel → Channel
steps [] c = c
steps (i ∷ is) c = steps is (step i c)
