-- ===== src/Recovery/Owned.antt =====
-- src/core/init_master_recovery.py: after a recovery, every unanswered message is owned once.
use claude_code_manager.Base.{
  ℕ, ◌≡◌, refl, sym, ap, subst, ◌∙◌, false, Option, none, some, List, [], ◌++◌, String, ◌∷◌, All,
  Bool-cases, Option-cases, inl, inr, drop, All-map_of, String_eq, Outcome, ok, ◌>>=◌,
}
use claude_code_manager.Ndjson.{Json}
use claude_code_manager.Runs.Log.{Translator}
use claude_code_manager.Runs.Process.{Host, Scan, RunError}
use claude_code_manager.MasterQueue.{truthy}
use claude_code_manager.MasterQueue.Requests.{queued_user_event_ids, enqueue-owned}
use claude_code_manager.Recovery.{
  MasterRun, Room, ChatEvent, done_event, unanswered_user_events, behind_done, owner, resume_item,
  Verdict, spared, unfollowable, followed, cleared, apply_verdict, replay_unanswered_user_messages,
  reconcile_master_identity, reconcile_master_runs, judge_turn,
}
use claude_code_manager.Recovery.Judgment.{judge_turn-IsJustified}
use claude_code_manager.Recovery.Replay.{
  ids_in, replay_events-owned, IsUnique, IsApart, has_event_id-parts, join-IsUnique,
  unanswered-IsUnique, unanswered-AllNew,
}
use claude_code_manager.Recovery.Covers.{AllIn, IsCovered, unanswered-covers, new-IsApart, moved}
use claude_code_manager.Recovery.Rounds.{
  NoneDone, behind_done-after, unanswered-AllIn, unanswered-known,
}

-- What a verdict makes of the recorded turn: the message that is queued for it, the one that it keeps
-- out of the replay, and the record.
abbrev pub resumed_by : Verdict → MasterRun → List (Option String)
resumed_by followed run = owner run
resumed_by _ run = []

abbrev pub kept_by : Verdict → MasterRun → List (Option String)
kept_by cleared run = []
kept_by _ run = owner run

abbrev pub record_after : Verdict → MasterRun → Option MasterRun
record_after cleared run = none
record_after _ run = some run

-- Of a chat log: behind the resumed turn, exactly unanswered messages are queued. `resumed` is the
-- message that is queued for the recorded turn, `kept` the one that it keeps out of the replay.
pub record IsOwned (events : List ChatEvent) (resumed kept : List (Option String)) (room : Room)
    : Type 0 where
  pub replayed : List (Option String)
  pub queued : queued_user_event_ids room.queue ≡ resumed ++ replayed
  -- No message is queued twice, and none is kept and replayed.
  pub once : IsUnique (queued_user_event_ids room.queue)
  pub apart : IsApart kept replayed
  -- A message with no finished round behind it is queued or kept.
  pub complete :
      (before after : List ChatEvent)
      → events ≡ before ++ after
      → NoneDone after
      → AllIn (queued_user_event_ids room.queue ++ kept) (ids_in after)
  -- A message is replayed only where it stands behind every finished round.
  pub known : AllIn (ids_in events) replayed
  pub unanswered :
      (before after : List ChatEvent)
      → events ≡ before ++ done_event ∷ after
      → AllIn (ids_in after) replayed

-- What the identity pass leaves.
record IsIdentified (room : Room) (resumed : List (Option String)) : Type 0 where
  owned : queued_user_event_ids room.queue ≡ resumed
  unique : IsUnique resumed

owner-IsUnique : (run : MasterRun) → IsUnique (owner run)
owner-IsUnique run = elim (Bool-cases (truthy run.user_event_id)) [
  | inl e ↦ rw e (refl, tt)
  | inr e ↦ rw e tt
]

-- What a verdict leaves of the room.
record IsApplied (room : Room) (verdict : Verdict) (run : MasterRun)
    (result : Room × List (Option String)) : Type 0 where
  identified : IsIdentified result.0 (resumed_by verdict run)
  excluded : result.1 ≡ kept_by verdict run
  recorded : result.0.master_run ≡ record_after verdict run
  events : result.0.events ≡ room.events
  terminal : result.0.is_terminal ≡ room.is_terminal

apply_verdict-IsApplied :
    (verdict : Verdict) (run : MasterRun) (now : ℕ) (room : Room)
    → room.master_run ≡ some run
    → queued_user_event_ids room.queue ≡ []
    → IsApplied room verdict run (apply_verdict verdict run now room)
unfolding apply_verdict
apply_verdict-IsApplied spared run now room r e = record {
  identified = record { owned = e; unique = tt };
  excluded = refl;
  recorded = r;
  events = refl;
  terminal = refl;
}
apply_verdict-IsApplied unfollowable run now room r e = record {
  identified = record { owned = e; unique = tt };
  excluded = refl;
  recorded = r;
  events = refl;
  terminal = refl;
}
apply_verdict-IsApplied cleared run now room r e = record {
  identified = record { owned = e; unique = tt };
  excluded = refl;
  recorded = refl;
  events = refl;
  terminal = refl;
}
apply_verdict-IsApplied followed run now room r e = record {
  identified = record {
    owned = rw (enqueue-owned (resume_item run room.template) now room.queue, e) refl;
    unique = owner-IsUnique run;
  };
  excluded = refl;
  recorded = r;
  events = refl;
  terminal = refl;
}

replay-IsOwned :
    (excluded resumed : List (Option String)) (now : ℕ) (room : Room)
    → room.is_terminal ≡ false
    → IsUnique (ids_in room.events)
    → IsIdentified room resumed
    → IsOwned room.events resumed excluded (replay_unanswered_user_messages excluded now room)
unfolding replay_unanswered_user_messages
replay-IsOwned excluded resumed now room open_room unique h =
    let owned = queued_user_event_ids room.queue in
    let skip = excluded ++ owned in
    let replayed = ids_in (unanswered_user_events room.events skip) in
    let fresh = unanswered-AllNew room.events skip in
    let queued =
      replay_events-owned room now (unanswered_user_events room.events skip) room.queue open_room in
    record {
      replayed = replayed;
      queued = queued ∙ ap (λ ids. ids ++ replayed) h.owned;
      once = rw queued (
          join-IsUnique owned replayed (rw (h.owned) (h.unique))
            (unanswered-IsUnique room.events skip unique)
            (new-IsApart owned replayed (
              All-map_of _ _ replayed (λ id new. (has_event_id-parts excluded owned id new).1)
                fresh)));
      apart =
          new-IsApart excluded replayed (
            All-map_of _ _ replayed (λ id new. (has_event_id-parts excluded owned id new).0) fresh);
      complete = λ before after cut open_round. rw queued (
          All-map_of _ _ (ids_in after) (λ id c. moved excluded owned replayed id c)
            (behind_done-after (IsCovered skip replayed) before after open_round (
              subst (λ evs. All (IsCovered skip replayed) (ids_in (drop (behind_done 0 0 evs) evs)))
                cut (unanswered-covers room.events skip))));
      known = unanswered-known room.events skip;
      unanswered = λ before after cut.
          subst (λ evs. AllIn (ids_in after) (ids_in (unanswered_user_events evs skip))) (sym cut)
            (unanswered-AllIn before after skip);
    }

module _ {V : Type 0} (json : Json V) (t : Translator V) (host : Host) (scan : Option Scan)
    (now boot : ℕ) where
  abbrev replayed : Room × List (Option String) → Outcome RunError Room
  replayed (room', excluded) = ok (replay_unanswered_user_messages excluded now room')

  abbrev found : Room → Option MasterRun → Outcome RunError (Room × List (Option String))
  found room none = ok (room, [])
  found room (some run) = judge_turn json t host scan now boot room.backend run >>= λ verdict.
      ok (apply_verdict verdict run now room)

  identified :
      (room : Room) (o : Option MasterRun)
      → room.master_run ≡ o
      → reconcile_master_runs json t host scan now boot room ≡ (found room o >>= replayed)
  unfolding reconcile_master_runs reconcile_master_identity
  identified room o e = ap (λ x. found room x >>= replayed) e

  -- What the recovery makes of a session, by what its record is.
  abbrev pub IsRecovered : Room → Option MasterRun → Room → Type 0
  IsRecovered room none room' = (room'.master_run ≡ none) × IsOwned room.events [] [] room'
  IsRecovered room (some run) room' =
      (verdict : Verdict) × (judge_turn json t host scan now boot room.backend run ≡ ok verdict)
      × (room'.master_run ≡ record_after verdict run)
      × IsOwned room.events (resumed_by verdict run) (kept_by verdict run) room'

  replay-recorded :
      (excluded : List (Option String)) (room : Room)
      → (replay_unanswered_user_messages excluded now room).master_run ≡ room.master_run
  unfolding replay_unanswered_user_messages
  replay-recorded excluded room = refl

  -- The recovery of a session that is no terminal, whose log has no message id twice, and of whose
  -- messages the process owns none yet, comes to an end without an error. The recorded turn gets the
  -- verdict of its judgment: only a cleared one loses its record, and only a followed one is queued.
  -- Behind it, messages are replayed that stand behind every finished round; every message with no
  -- finished round behind it is queued or is the one of the recorded turn that is not cleared; none
  -- is queued twice, and what such a turn keeps is not replayed.
  pub reconcile_master_runs-IsOwned :
      (room : Room)
      → room.is_terminal ≡ false
      → IsUnique (ids_in room.events)
      → queued_user_event_ids room.queue ≡ []
      → (room' : Room) × (reconcile_master_runs json t host scan now boot room ≡ ok room')
        × IsRecovered room room.master_run room'
  reconcile_master_runs-IsOwned room open_room unique none_owned =
      elim (Option-cases room.master_run) [
        | inl e ↦
            let after = replay_unanswered_user_messages [] now room in
            let owned =
              replay-IsOwned [] [] now room open_room unique
                (record { owned = none_owned; unique = tt }) in
            (
              after,
              identified room none e,
              subst (λ o. IsRecovered room o after) (sym e) (replay-recorded [] room ∙ e, owned),
            )
        | inr (run, e) ↦
            let (verdict, judged, why) =
              judge_turn-IsJustified json t host scan now boot room.backend run in
            let room' = (apply_verdict verdict run now room).0 in
            let excluded = (apply_verdict verdict run now room).1 in
            let applied = apply_verdict-IsApplied verdict run now room e none_owned in
            let after = replay_unanswered_user_messages excluded now room' in
            let owned =
              replay-IsOwned excluded (resumed_by verdict run) now room'
                (applied.terminal ∙ open_room)
                (subst (λ evs. IsUnique (ids_in evs)) (sym applied.events) unique)
                applied.identified in
            (
              after,
              identified room (some run) e
                  ∙ ap (λ m. m >>= (λ v. ok (apply_verdict v run now room)) >>= replayed) judged,
              subst (λ o. IsRecovered room o after) (sym e)
                  (
                    verdict,
                    judged,
                    replay-recorded excluded room' ∙ applied.recorded,
                    subst (λ evs. IsOwned evs (resumed_by verdict run) (kept_by verdict run) after)
                        applied.events
                        (subst (λ ids. IsOwned room'.events (resumed_by verdict run) ids after)
                          applied.excluded owned),
                  ),
            )
      ]
