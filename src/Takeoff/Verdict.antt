-- ===== src/Takeoff/Verdict.antt =====
-- What `check_takeoff_gate` of src/core/takeoff_gate.py lets through.
use claude_code_manager.Base.{
  ℕ, ◌+◌, ◌≤◌, ◌<◌, ◌≡◌, refl, ap, ◌∙◌, Bool, true, false, Option, none, some, List, [], ◌∷◌, ◌++◌,
  ◌⊎◌, ◌↔◌, inl, inr, arith, String, Text, codes, starts_with, occurs_in, ok, raise,
}
use claude_code_manager.Takeoff.{
  Event, aware, naive, Runtime, Answers, pre_takeoff_phrase, takeoff_phrase, pre_takeoff_window,
  pre_takeoff_active, judge, value_error, check_takeoff_gate, normalize_takeoff_content,
}
use claude_code_manager.Takeoff.Walk.{backward_user_answers-eq, last_user, last_stamp, says_takeoff}
use claude_code_manager.Takeoff.Settled.{
  World, Reach, Reach-IsHonest, start, start-IsHonest, events_of, answers_of_honest,
}

judge_iff :
    (b : Bool) (pre : Option ℕ) (now : ℕ)
    → (judge b pre now ≡ ok tt)
      ↔ ((b ≡ true) ⊎ ((t : ℕ) × (pre ≡ some t) × (t ≤ now) × (now < t + pre_takeoff_window)))
unfolding judge pre_takeoff_active
judge_iff true pre now = (λ h. inl refl, λ h. refl)
judge_iff false none now = (λ h. cc, elim [ inl e ↦ cc | inr (t, e, _, _) ↦ cc ])
judge_iff false (some t) now = (
  λ h. inr (t, refl, ground arith, ground arith),
  elim [ inl e ↦ cc | inr (u, e, p, q) ↦ ground arith ],
)

-- In every state that the sessions' lists, the scans and the stores can reach, a check at the
-- aware time `now` passes exactly when the last real user message carries the takeoff phrase, or
-- the last stamp of a pre-takeoff message lies at most at `now` and less than twelve hours before.
pub check_takeoff_gate_iff :
    (rt : Runtime) (n : ℕ) (w : World) (s : String) (now : ℕ)
    → Reach rt (start n) w
    → ((check_takeoff_gate rt s (w.current s) (events_of w s) (aware now) w.memo).0 ≡ ok tt) ↔ (
        (says_takeoff rt (last_user (events_of w s)) ≡ true)
        ⊎ ((t : ℕ) × (last_stamp rt (events_of w s) ≡ some t)
            × (t ≤ now)
            × (now < t + pre_takeoff_window)))
unfolding check_takeoff_gate
check_takeoff_gate_iff rt n w s now r =
    let (takeoff, pre) = answers_of_honest rt w s (Reach-IsHonest rt (start-IsHonest rt n) r) in
    let e = backward_user_answers-eq rt (events_of w s) in
    rw
      (
        takeoff ∙ ap (λ (a : Answers). a.has_takeoff) e,
        pre ∙ ap (λ (a : Answers). a.pre_takeoff_at) e,
      )
      (judge_iff _ _ now)

-- A check at a time without a zone raises ValueError, and leaves the memo alone.
check_naive :
    (rt : Runtime) (s : String) (o : ℕ) (es : List Event) (m : _)
    → check_takeoff_gate rt s o es naive m ≡ (raise value_error, m)
unfolding check_takeoff_gate
check_naive rt s o es m = refl

occurs_in_of_starts : (p s : Text) → starts_with p s ≡ true → occurs_in p s ≡ true
occurs_in_of_starts p [] h = h
occurs_in_of_starts p (c ∷ s) h = rw h

starts_with-append : (u p s : Text) → starts_with (u ++ p) s ≡ true → occurs_in p s ≡ true
starts_with-append [] p s h = occurs_in_of_starts p s h
starts_with-append (x ∷ u) p [] h = cc
starts_with-append (x ∷ u) p (c ∷ s) h = ground (arith, starts_with-append u p s)

occurs_in-append : (u p s : Text) → occurs_in (u ++ p) s ≡ true → occurs_in p s ≡ true
occurs_in-append u p [] h = starts_with-append u p [] h
occurs_in-append u p (c ∷ s) h =
    ground (arith, starts_with-append u p (c ∷ s), occurs_in-append u p s)

-- While the last real user message carries the pre-takeoff phrase, a check at any aware time
-- passes, whatever the stamp of that message says: the takeoff phrase is part of it.
pub check_takeoff_gate-pre_message :
    (rt : Runtime) (n : ℕ) (w : World) (s : String) (now : ℕ) (u : Event)
    → Reach rt (start n) w
    → last_user (events_of w s) ≡ some u
    → occurs_in pre_takeoff_phrase (normalize_takeoff_content rt u.content) ≡ true
    → (check_takeoff_gate rt s (w.current s) (events_of w s) (aware now) w.memo).0 ≡ ok tt
unfolding says_takeoff
check_takeoff_gate-pre_message rt n w s now u r last pre =
    (check_takeoff_gate_iff rt n w s now r).1 (
      inl (
        rw last (
          occurs_in-append (codes "pre ") takeoff_phrase (normalize_takeoff_content rt u.content)
            pre)))
