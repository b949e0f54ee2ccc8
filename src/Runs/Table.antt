-- ===== src/Runs/Table.antt =====
-- The outcome table of src/core/runs.py against a decision on what is known of the run.
use claude_code_manager.Base.{
  ℕ, ◌≡◌, refl, Bool, true, false, not, ◌&&◌, ◌||◌, Option, none, some, String, if◌then◌else◌, ltb,
  ok, arith, Bool-cases, inl, inr, ◌∙◌, ap, sym, Outcome-cases, ok-inj,
}
use claude_code_manager.Ndjson.{Json}
use claude_code_manager.Runs.Log.{Translator, Event}
use claude_code_manager.Runs.Process.{Recorded, Host, Scan, is_run_alive}
use claude_code_manager.Runs.Resolve.{
  RunOutcome, completed, died, stalled, never_started, running, RunResolution, RawLog, resolve_run,
  rows, uncovered, result_of, changed_of, is_none, silence, no_output_report_threshold,
}

-- Whether a liveness input is missing, so that no probe can prove a death.
abbrev pub is_unproven : Recorded → Bool
is_unproven r = is_none r.pid || is_none r.pid_start || is_none r.started_at

-- What is known of a run decides its outcome: a result, else whether it counts as alive, and then
-- whether a log that can be followed has been silent for too long.
unfoldable pub expected : Bool → Bool → Bool → Bool → RunOutcome
expected fresh has_result alive silent =
    if fresh
    then never_started
    else if has_result
    then completed
    else if alive
    then (if silent then stalled else running)
    else died

abbrev pub is_silent : Option RawLog → Bool → ℕ → Bool
is_silent raw is_uncovered now =
    not is_uncovered && ltb no_output_report_threshold (silence (changed_of raw) now)

rows-expected :
    (host : Host) (raw : Option RawLog) (r : Recorded) (u : Bool) (result : Option Event)
    (scan : Option Scan) (now : ℕ) (alive : Bool)
    → (is_none raw && not (is_none result)) ≡ false
    → (rows host raw r u result scan now alive).outcome
      ≡ expected false (not (is_none result)) (alive || is_unproven r) (is_silent raw u now)
unfolding rows expected
rows-expected host raw r u result scan now alive h = ground (arith, h)

module _ {V : Type 0} (json : Json V) (t : Translator V) where
  -- The decision, on what the arguments say.
  abbrev pub decision : Option RawLog → Recorded → Option String → ℕ → Bool → RunOutcome
  decision raw r backend now alive =
      expected (is_none raw && is_none r.pid) (not (is_none (result_of json t raw)))
        (alive || is_unproven r) (is_silent raw (uncovered backend) now)

  no_result_of :
      (raw : Option RawLog) → (is_none raw && not (is_none (result_of json t raw))) ≡ false
  no_result_of none = refl
  no_result_of (some log) = refl

  -- Where the probe answers, so does the table, and the outcome is the decided one: a run that never
  -- started where neither log nor pid is there, else completed where a result event is, else alive
  -- or stalled where the probe says alive or an input of it is missing, and died where none of this
  -- holds.
  pub resolve_run-decision :
      (host : Host) (raw : Option RawLog) (r : Recorded) (backend : Option String)
      (scan : Option Scan) (now : ℕ) (alive : Bool)
      → is_run_alive host r ≡ ok alive
      → (res : RunResolution) × (resolve_run json t host raw r backend scan now ≡ ok res)
        × (res.outcome ≡ decision raw r backend now alive)
  unfolding resolve_run expected
  resolve_run-decision host raw r backend scan now alive h =
      elim (Bool-cases (is_none raw && is_none r.pid)) [
        | inl e ↦ rw (e) (_, refl, refl)
        | inr e ↦
            rw (e, h)
              (
                _,
                refl,
                rows-expected host raw r (uncovered backend) (result_of json t raw) scan now alive
                    (no_result_of raw),
              )
      ]

  -- What a report of a death rests on.
  pub record IsProvenDead (host : Host) (raw : Option RawLog) (r : Recorded) : Type 0 where
    pub probed : is_run_alive host r ≡ ok false
    pub inputs : is_unproven r ≡ false
    pub no_result : is_none (result_of json t raw) ≡ true

  decision-died :
      (raw : Option RawLog) (r : Recorded) (backend : Option String) (now : ℕ) (alive : Bool)
      → decision raw r backend now alive ≡ died
      → (alive ≡ false) × (is_unproven r ≡ false) × (is_none (result_of json t raw) ≡ true)
  unfolding expected
  decision-died raw r backend now alive h = ground (arith, h)

  -- A death is reported only where it is proven: pid, start and time are all recorded, the probe
  -- says that the process is gone, and no result event is in the log.
  pub resolve_run-IsProvenDead :
      (host : Host) (raw : Option RawLog) (r : Recorded) (backend : Option String)
      (scan : Option Scan) (now : ℕ) (res : RunResolution)
      → resolve_run json t host raw r backend scan now ≡ ok res
      → res.outcome ≡ died
      → IsProvenDead host raw r
  unfolding resolve_run
  resolve_run-IsProvenDead host raw r backend scan now res h dead =
      elim (Outcome-cases (is_run_alive host r)) [
        | inl (alive, e) ↦
            let (other, returned, decided) =
              resolve_run-decision host raw r backend scan now alive e in
            let same : other ≡ res = ok-inj (sym returned ∙ h) in
            let (gone, inputs, no_result) =
              decision-died raw r backend now alive
                (sym decided ∙ ap (λ x. x.outcome) same ∙ dead) in
            record { probed = e ∙ ap ok gone; inputs = inputs; no_result = no_result }
        | inr (error, e) ↦ absurd (ground (arith, h, e, dead))
      ]
