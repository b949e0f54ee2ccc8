-- ===== src/Lib.antt =====
-- CharlieBot manages coding agents: a server keeps chat sessions, runs a master agent per session
-- and worker agents in threads, and records everything in files. This library models the parts of
-- it that decide, and proves what makes them correct. The parts meet like this:
--
-- A user message is queued in its session (src/agents/master_cc_queue.py); one consumer per session
-- takes the items in order, runs the master agent and settles the futures of the callers, while
-- src/core/thinking_state.py keeps when the session became busy. The master delegates work only
-- when the takeoff gate (src/core/takeoff_gate.py) finds the user's consent in the chat events, and
-- keeps its plans in a registry (src/core/plans.py). Events stand in newline-delimited JSON files
-- (src/core/ndjson.py), which the readers memoize by the stat of the file (src/core/memo.py). After
-- a restart, src/core/runs.py decides from the files and from /proc what became of each run, and
-- src/core/init_master_recovery.py resumes or replays what the old process left unanswered. A
-- verifier's report is read from its log (src/core/verify_trailer.py), and the workers of a
-- scheduled task follow each other in a chain (src/core/task_chain.py). A run that nears the limit
-- of its login account is ended at a safe point and relayed (src/core/claude_relay.py). The clients
-- see the frames that src/core/streaming.py fans out, and the messages into which
-- src/core/message_aggregator.py turns the events.
--
-- Files and correspondence:
-- - Base: shared names, lists under native numbers, texts as code points, equality as an interface,
--   errors as values (Outcome for raised exceptions), integers.
-- - Memo, src/core/memo.py: BoundedMemo and StatSignatureMemo; get, store, drop_where, drop, clear,
--   fresh and record (save here) under the names of the source. Memo/Entries and Memo/Contents have
--   the lemmas on the ordered dict, Memo/Bounds and Memo/Recency the limit and the eviction order,
--   Memo/Freshness the readers and writers of files around the signature.
-- - Takeoff, src/core/takeoff_gate.py: _backward_user_answers, _settled_user_answers and
--   check_takeoff_gate. Takeoff/Walk has the backward walk, Takeoff/Settled the settled entries of
--   growing event lists, Takeoff/Verdict the check.
-- - Plans, src/core/plans.py: the registry is the list of plans, the verbs present, amend, approve
--   and close are `draft_*` and then `save`; Plans/Paths and Plans/Resolve have the checks,
--   Plans/Verbs the verbs, Plans/Lifecycle their abstract edits, Plans/Order, Plans/Registry,
--   Plans/Histories, Plans/Evolution and Plans/Replies what they keep.
-- - MasterQueue, src/agents/master_cc_queue.py with thinking_state.py and master_cc_state.py:
--   _enqueue_work_item is `enqueue`, the moments of _session_consumer at which another task can
--   come between are the cases of `step_consumer`. MasterQueue/Busy, MasterQueue/Order and
--   MasterQueue/Drain have its invariants and its liveness; MasterQueue/Requests has run_message,
--   replay_user_message, cancel_master and the ids of the messages that the process owns.
-- - Ndjson, src/core/ndjson.py: the readers from the front and from the end, the line count, the
--   writers. Ndjson/Lines, Ndjson/Windows and Ndjson/FromEnd have the walk, Ndjson/Tail the readers
--   of the end, Ndjson/Counting the count, Ndjson/Writing the appends.
-- - Runs, src/core/runs.py: liveness, the raw log and the outcome table, in Runs/Process, Runs/Log
--   and Runs/Resolve. Runs/Liveness, Runs/RawLines and Runs/Table have the theorems.
-- - VerifyTrailer, src/core/verify_trailer.py: the report read from the end of a log
--   (VerifyTrailer/Report), the normal form of a line (VerifyTrailer/Normal) and the trailer line.
-- - TaskChain, src/core/task_chain.py with the wake judgment of src/core/review.py: spawn_step and
--   handle_step_completion on a session's threads and chat events. TaskChain/Judged has the fold of
--   src/core/chat_events.py, which the judgment reads, against the scan of
--   src/core/finalize_effects.py, TaskChain/Rerun the repeated completion, TaskChain/Histories what
--   histories keep.
-- - Streaming, src/core/streaming.py: the StreamingManager's state of one channel under its method
--   names. Streaming/Coalescing has the bursts of drafts, Streaming/Hiding the frames that hide
--   them.
-- - Messages, src/core/message_aggregator.py, src/core/message_events.py and
--   src/core/message_projection.py: Messages/Uploads and Messages/Events have the shapes,
--   Messages/Notices the handlers of the events that are one message, Messages/Aggregator and
--   Messages/Feeding the MessageAggregator under its method names, Messages/StableOrder and
--   Messages/Projection the order and the projection. Messages/Walking and Messages/Conservation
--   carry properties of steps to a feed, for Messages/Bounds and Messages/Contents; Messages/Quiet
--   has the aggregator without stream deltas; Messages/Borders, Messages/Shifts and
--   Messages/ClosedPrefix split the stable order, and Messages/Folding the fold, for Messages/View;
--   Messages/Pages and Messages/Reading have the pages, and Messages/PageBodies the kept renderings
--   with the route of src/api/sessions.py that serves them, for a session without an archive.
-- - Backlog, src/core/backlog_loop.py: determine_action and its steps on the items of the file.
--   Backlog/Ids has the ids, Backlog/Choice the item that is chosen, Backlog/Decision the decision.
-- - Recovery, src/core/init_master_recovery.py on Runs and MasterQueue: reconcile_master_identity,
--   with `judge_turn` for what it finds of a turn, and _replay_unanswered_user_messages, on one
--   session. Recovery/Judgment has what a verdict rests on, Recovery/Replay and Recovery/Covers the
--   ids that are replayed, Recovery/Rounds what stands behind the finished rounds, Recovery/Owned
--   the two passes.
-- - Accounts, src/core/claude_accounts.py and src/core/claude_relay.py: observe_rate_limit and
--   login_notice_due; Accounts/Watch has the RelayWatch of a run under its method names,
--   Accounts/SafePoint when it ends the process, Accounts/Decision what the run asks for,
--   Accounts/Notices the login notices. A past is the list of events with the newest first.
-- - TraceMerge, src/core/trace_merge.py: the _EventBatcher and the _IdSequencer (calling it is
--   `dense_id`); TraceMerge/Batching has the output of the batches, TraceMerge/Numbering the
--   numbers.
-- - The Tests module of a component runs it on small inputs.
--
-- Parameters: code outside the repository is an argument of what uses it (the JSON parser and the
-- decoder, casefold and the date parser, the file system under a session, what /proc shows, the
-- backend's translate, how many bytes a write takes), with what the code relies on as a hypothesis
-- of the theorem. Times are microseconds, sizes and positions natural numbers.
--
-- Fuel: the walk from the end has the length of the file, since each window has at least one byte;
-- the line count has one more, for the read that finds the end; write_all has the length of the
-- data, since each write takes at least a byte; the pieces of a raw log have its length; the loop
-- that normalises a line has one more than it, since a turn that is not the last shortens the line;
-- the digits of a number have the number, and the reader of pages the number of the messages. The
-- theorems are about these values of fuel, and say what the result is there, so that it is enough.
--
-- Not modelled: logging, fsync, file locks, and threads, whose reads and writes are single steps
-- here; the tolerant reading of a plan file; the scan of /proc; the choice of a login account,
-- whose scores are floating point numbers; the recovery of workers; the wording of prompts; what
-- the trace merge changes in one event; and the other components, which are I/O, prompts, web
-- handlers and the web frontend, or have not been taken up.
pub mod MasterQueue
pub mod Base
pub mod Memo
pub mod Takeoff
pub mod Plans
pub mod Ndjson
pub mod Runs
pub mod VerifyTrailer
pub mod TaskChain
pub mod Streaming
pub mod Messages
pub mod Backlog
pub mod Recovery
pub mod Accounts
pub mod TraceMerge
