-- ===== src/Streaming/Hiding.antt =====
-- That src/core/streaming.py shows no draft after a frame that hides the preview.
use claude_code_manager.Base.{
  ℕ, ◌+◌, ◌≡◌, refl, sym, ◌∙◌, ap, subst, none, List, [], ◌∷◌, ◌++◌, is_empty, arith, Bool-cases,
  inl, inr, All,
}
use claude_code_manager.Streaming.{
  Frame, draft, hiding, other, Channel, subscribe, unsubscribe, leave, without, drop_pending_stream,
  fan_out, broadcast, stream_window_ended, run_flush, task_of, close_all, Input, joined, left,
  frame, window_ended, closed, flush_runs, step, steps,
}

abbrev pub is_draft : Frame → ℕ
is_draft (draft d) = 1
is_draft _ = 0

-- How many drafts a list of frames has.
abbrev pub drafts : List Frame → ℕ
drafts [] = 0
drafts (f ∷ fs) = is_draft f + drafts fs

drafts-append : (xs ys : List Frame) → drafts (xs ++ ys) ≡ drafts xs + drafts ys
drafts-append [] ys = omega arith
drafts-append (x ∷ xs) ys = omega (arith, drafts-append xs ys)

-- No draft waits, for the timer or for its task.
pub record IsQuiet (c : Channel) : Type 0 where
  pub none_pending : c.pending ≡ none
  pub none_flushed : c.flushes ≡ []

abbrev pub brings_draft : Input → ℕ
brings_draft (frame dead f) = is_draft f
brings_draft _ = 0

abbrev pub IsDraftless : Input → Type 0
IsDraftless i = brings_draft i ≡ 0

pub record Quiet (before after : Channel) : Type 0 where
  pub quiet : IsQuiet after
  pub same_drafts : drafts after.wire ≡ drafts before.wire

fan_out-Quiet :
    (dead : List ℕ) (f : Frame) (c : Channel)
    → is_draft f ≡ 0
    → IsQuiet c
    → Quiet c (fan_out dead f c)
unfolding fan_out
fan_out-Quiet dead f c h q = elim (Bool-cases (is_empty c.sockets)) [
  | inl e ↦ rw (e) (record { quiet = q; same_drafts = refl })
  | inr e ↦ rw (e) (record {
    quiet = record { none_pending = q.none_pending; none_flushed = q.none_flushed };
    same_drafts = omega (arith, h, drafts-append c.wire (f ∷ []));
  })
]

drop_pending_stream-IsQuiet : (c : Channel) → c.flushes ≡ [] → IsQuiet (drop_pending_stream c)
unfolding drop_pending_stream
drop_pending_stream-IsQuiet c h = record { none_pending = refl; none_flushed = h }

leave-Quiet : (ss : List ℕ) (c : Channel) → IsQuiet c → Quiet c (leave ss c)
unfolding drop_pending_stream
leave-Quiet [] c q = record {
  quiet = record { none_pending = refl; none_flushed = q.none_flushed };
  same_drafts = refl;
}
leave-Quiet (s ∷ ss) c q = record {
  quiet = record { none_pending = q.none_pending; none_flushed = q.none_flushed };
  same_drafts = refl;
}

hiding-Quiet :
    (dead : List ℕ) (f : ℕ) (c : Channel) → c.flushes ≡ [] → Quiet c (broadcast dead (hiding f) c)
unfolding broadcast
hiding-Quiet dead f c h =
    let r =
      fan_out-Quiet dead (hiding f) (drop_pending_stream c) refl
        (drop_pending_stream-IsQuiet c h) in
    record { quiet = r.quiet; same_drafts = unfold drop_pending_stream in r.same_drafts }

window_ended-Quiet : (c : Channel) → IsQuiet c → Quiet c (stream_window_ended c)
unfolding stream_window_ended
window_ended-Quiet c q = elim (Bool-cases c.timer) [
  | inl e ↦ rw (e) (record {
    quiet = record {
      none_pending = refl;
      none_flushed = ap (λ l. l ++ task_of c.pending) q.none_flushed ∙ ap task_of q.none_pending;
    };
    same_drafts = refl;
  })
  | inr e ↦ rw (e) (record {
    quiet = record { none_pending = q.none_pending; none_flushed = q.none_flushed };
    same_drafts = refl;
  })
]

step-Quiet : (i : Input) (c : Channel) → IsDraftless i → IsQuiet c → Quiet c (step i c)
unfolding step subscribe unsubscribe broadcast close_all drop_pending_stream
step-Quiet (joined ws) c h q = record {
  quiet = record { none_pending = q.none_pending; none_flushed = q.none_flushed };
  same_drafts = refl;
}
step-Quiet (left ws) c h q = leave-Quiet (without (ws ∷ []) c.sockets) c q
step-Quiet (frame dead (draft d)) c h q = absurd (omega (arith, h))
step-Quiet (frame dead (hiding f)) c h q = hiding-Quiet dead f c q.none_flushed
step-Quiet (frame dead (other f)) c h q = fan_out-Quiet dead (other f) c refl q
step-Quiet window_ended c h q = window_ended-Quiet c q
step-Quiet closed c h q = record {
  quiet = record { none_pending = refl; none_flushed = q.none_flushed };
  same_drafts = refl;
}
step-Quiet (flush_runs dead) c h q =
    subst (Quiet c) (ap (λ l. run_flush dead l c) (sym q.none_flushed))
      (record { quiet = q; same_drafts = refl })

steps-Quiet :
    (is : List Input) (c : Channel) → All IsDraftless is → IsQuiet c → Quiet c (steps is c)
unfolding steps
steps-Quiet [] c h q = record { quiet = q; same_drafts = refl }
steps-Quiet (i ∷ is) c h q =
    let first = step-Quiet i c h.0 q in
    let rest = steps-Quiet is (step i c) h.1 first.quiet in
    record { quiet = rest.quiet; same_drafts = rest.same_drafts ∙ first.same_drafts }

-- Where no task waits to send a draft: from a frame on that hides the preview, and until a draft is
-- broadcast again, no draft is sent, whichever timers end and sockets come and go.
pub hiding-drafts :
    (dead : List ℕ) (f : ℕ) (is : List Input) (c : Channel)
    → c.flushes ≡ []
    → All IsDraftless is
    → drafts (steps is (broadcast dead (hiding f) c)).wire ≡ drafts c.wire
hiding-drafts dead f is c h draftless =
    let first = hiding-Quiet dead f c h in
    (steps-Quiet is (broadcast dead (hiding f) c) draftless first.quiet).same_drafts
    ∙ first.same_drafts
