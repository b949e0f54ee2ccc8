-- ===== src/Recovery/Judgment.antt =====
-- src/core/init_master_recovery.py: what the judgment of a recorded turn rests on.
use claude_code_manager.Base.{
  ℕ, ◌≤◌, ◌<◌, ◌≡◌, ◌≢◌, refl, sym, ap, ◌∙◌, Bool, true, false, not, ◌&&◌, ◌||◌, Option, none, some,
  String, Text, if◌then◌else◌, leb, leb→le, Bool-cases, Option-cases, Outcome, ok, ok-inj, ◌⊎◌, inl,
  inr, arith, text_eq, ltb, [], ◌∷◌,
}
use claude_code_manager.Ndjson.{Json}
use claude_code_manager.Runs.Log.{Translator}
use claude_code_manager.Runs.Process.{
  Recorded, Host, Scan, RunError, aware, is_run_alive, judge_stat, read_pid_stat,
}
use claude_code_manager.Runs.Resolve.{
  RunOutcome, completed, died, stalled, never_started, running, RunResolution, Reason, resolve_run,
  is_none,
}
use claude_code_manager.Runs.Table.{
  IsProvenDead, decision, expected, resolve_run-decision, resolve_run-IsProvenDead,
}
use claude_code_manager.MasterQueue.{truthy}
use claude_code_manager.Recovery.{
  MasterRun, recorded_of, Verdict, spared, unfollowable, followed, cleared, verdict_of,
  is_unfollowable, follows, judge_turn,
}

leb_false→lt : (a b : ℕ) → leb a b ≡ false → b < a
leb_false→lt a b h = ground (arith, h)

judge_stat-total :
    (st : Option (Text × Text)) (p : Text) (at boot : ℕ)
    → (b : Bool) × (judge_stat st p (aware at) boot ≡ ok b)
judge_stat-total none p at boot = (false, refl)
judge_stat-total (some (start, state)) p at boot =
    elim (Bool-cases (not (text_eq start p) || text_eq state (b'Z' ∷ []))) [
      | inl e ↦ (false, rw e refl)
      | inr e ↦ (ltb boot at, rw e refl)
    ]

-- A recorded turn has an aware time, so that the probe answers.
alive_total :
    (host : Host) (run : MasterRun)
    → (alive : Bool) × (is_run_alive host (recorded_of run) ≡ ok alive)
unfolding is_run_alive
alive_total host run = go run.pid run.pid_start
  where
    go :
        (pid : Option ℕ) (start : Option Text)
        → (alive : Bool) × (is_run_alive host
              (record { pid = pid; pid_start = start; started_at = some (aware run.started_at) })
            ≡ ok alive)
    go none start = (false, refl)
    go (some pid) none = (false, refl)
    go (some pid) (some start) =
        judge_stat-total (read_pid_stat host.is_space (host.stat pid)) start run.started_at
          host.boot_time

IsOver : RunOutcome → Type 0
IsOver outcome = (outcome ≡ never_started) ⊎ (outcome ≡ died)

verdict-IsOver :
    (outcome : RunOutcome) (why : Reason) (has_message : Bool)
    → (if is_unfollowable outcome why
        then unfollowable
        else if follows outcome why has_message
        then followed
        else cleared)
      ≡ cleared
    → IsOver outcome
unfolding IsOver
verdict-IsOver never_started why m h = inl refl
verdict-IsOver died why m h = inr refl
verdict-IsOver completed why m h = cc
verdict-IsOver stalled why m h = cc
verdict-IsOver running why m h = elim (Bool-cases (is_unfollowable running why)) [
  | inl e ↦ absurd (unlike_unfollowable (rw e at h))
  | inr e ↦ absurd (unlike_followed (rw e at h))
]
  where
    unlike_unfollowable : unfollowable ≡ cleared → ⊥
    unlike_unfollowable e = cc

    unlike_followed : followed ≡ cleared → ⊥
    unlike_followed e = cc

verdict_of-ne-spared :
    (res : RunResolution) (has_message : Bool) → verdict_of res has_message ≢ spared
unfolding verdict_of
verdict_of-ne-spared res m h = ground (arith, h)

module _ {V : Type 0} (json : Json V) (t : Translator V) (host : Host) (scan : Option Scan)
    (now boot : ℕ) where
  -- Nothing of the turn is left that could still answer its message: it never started, its death is
  -- proven, or, where its backend is unknown, the probe of its recorded process says that it is gone.
  abbrev pub IsGone : Option String → MasterRun → Type 0
  IsGone backend run =
      ((backend ≡ none)
        × (pid : ℕ) × (start : Text) × (run.pid ≡ some pid)
        × (run.pid_start ≡ some start)
        × (is_run_alive host (recorded_of run) ≡ ok false))
      ⊎ (((is_none run.raw && is_none run.pid) ≡ true)
          ⊎ IsProvenDead json t host run.raw (recorded_of run))

  -- The backend is unknown, and the record does not name a process that could be probed.
  abbrev pub IsUnprovable : Option String → MasterRun → Type 0
  IsUnprovable backend run = (backend ≡ none) × ((run.pid ≡ none) ⊎ (run.pid_start ≡ none))

  abbrev pub IsJustified : Option String → MasterRun → Verdict → Type 0
  IsJustified backend run spared = boot ≤ run.started_at
  IsJustified backend run cleared =
      (run.started_at < boot) × (IsGone backend run ⊎ IsUnprovable backend run)
  IsJustified backend run _ = run.started_at < boot

  not_alive :
      (run : MasterRun)
      → is_run_alive host (recorded_of run) ≡ ok false
      → IsGone none run ⊎ IsUnprovable none run
  not_alive run probe = elim (Option-cases run.pid) [
    | inl e ↦ inr (refl, inl e)
    | inr (pid, named) ↦ elim (Option-cases run.pid_start) [
      | inl e ↦ inr (refl, inr e)
      | inr (start, begun) ↦ inl (inl (refl, pid, start, named, begun, probe))
    ]
  ]

  decision-never :
      (raw : Option _) (r : Recorded) (backend : Option String) (alive : Bool)
      → decision json t raw r backend now alive ≡ never_started
      → (is_none raw && is_none r.pid) ≡ true
  unfolding expected
  decision-never raw r backend alive h = ground (arith, h)

  resolved-IsGone :
      (kind : String) (run : MasterRun) (res : RunResolution)
      → resolve_run json t host run.raw (recorded_of run) (some kind) scan now ≡ ok res
      → verdict_of res (truthy run.user_event_id) ≡ cleared
      → IsGone (some kind) run
  unfolding verdict_of IsOver
  resolved-IsGone kind run res h c =
      let (alive, probe) = alive_total host run in
      let (other, returned, decided) =
        resolve_run-decision json t host run.raw (recorded_of run) (some kind) scan now alive
          probe in
      let same : other ≡ res = ok-inj (sym returned ∙ h) in
      elim (verdict-IsOver res.outcome res.reason (truthy run.user_event_id) c) [
        | inl never ↦ inr (
            inl (
              decision-never run.raw (recorded_of run) (some kind) alive
                (sym decided ∙ ap (λ x. x.outcome) same ∙ never)))
        | inr dead ↦ inr (
            inr (
              resolve_run-IsProvenDead json t host run.raw (recorded_of run) (some kind) scan now
                res h dead))
      ]

  probed :
      (run : MasterRun)
      → run.started_at < boot
      → (alive : Bool) → is_run_alive host (recorded_of run) ≡ ok alive
      → (verdict : Verdict) × (◌≡◌ {A = Outcome RunError Verdict}
          (ok (if alive then unfollowable else cleared))
          (ok verdict))
        × IsJustified none run verdict
  probed run older true probe = (unfollowable, refl, older)
  probed run older false probe = (cleared, refl, (older, not_alive run probe))

  resolved :
      (kind : String) (run : MasterRun)
      → run.started_at < boot
      → (verdict : Verdict) → verdict ≢ spared
      → (verdict ≡ cleared → IsGone (some kind) run)
      → IsJustified (some kind) run verdict
  resolved kind run older spared other gone = absurd (other refl)
  resolved kind run older cleared other gone = (older, inl (gone refl))
  resolved kind run older followed other gone = older
  resolved kind run older unfollowable other gone = older

  -- The judgment of a recorded turn always comes to a verdict: a turn of this process is spared, and
  -- the record of an older one is cleared, so that its message can be replayed, only where nothing
  -- of it is left that could answer it, or where its backend is unknown and its record lacks the pid
  -- or its start, so that its life cannot be proven.
  pub judge_turn-IsJustified :
      (backend : Option String) (run : MasterRun)
      → (verdict : Verdict) × (judge_turn json t host scan now boot backend run ≡ ok verdict)
        × IsJustified backend run verdict
  unfolding judge_turn
  judge_turn-IsJustified none run = elim (Bool-cases (leb boot run.started_at)) [
    | inl own ↦ rw own (spared, refl, leb→le _ _ own)
    | inr older ↦
        let (alive, probe) = alive_total host run in
        rw (older, probe) (probed run (leb_false→lt _ _ older) alive probe)
  ]
  judge_turn-IsJustified (some kind) run = elim (Bool-cases (leb boot run.started_at)) [
    | inl own ↦ rw own (spared, refl, leb→le _ _ own)
    | inr older ↦
        let (alive, probe) = alive_total host run in
        let (res, returned, decided) =
          resolve_run-decision json t host run.raw (recorded_of run) (some kind) scan now alive
            probe in
        rw (older, returned)
          (
            verdict_of res (truthy run.user_event_id),
            refl,
            resolved kind run (leb_false→lt _ _ older) (verdict_of res (truthy run.user_event_id))
                (verdict_of-ne-spared res (truthy run.user_event_id))
                (λ c. resolved-IsGone kind run res returned c),
          )
  ]
