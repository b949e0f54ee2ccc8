-- ===== src/Runs/Liveness.antt =====
-- What src/core/runs.py reads of a process, and which processes it may name for killing.
use claude_code_manager.Base.{
  ℕ, ◌<◌, ◌≡◌, ◌≢◌, refl, sym, ◌∙◌, ap, Bool, true, false, not, ◌&&◌, ◌||◌, Option, none, some,
  List, [], ◌∷◌, ◌++◌, Text, nat_eq, split_from, emit_word, join_spaced, All, filter, ℕ_eq, arith,
  append-nil, append_assoc, Bool-cases, inl, inr, String, ok, ok-inj, length, ltb, is_empty, subst,
  >>=-eq-ok,
}
use claude_code_manager.Ndjson.{Json}
use claude_code_manager.Runs.Log.{Translator, Event}
use claude_code_manager.Runs.Process.{
  read_pid_stat, after_last, stat_fields, HolderProcess, Scan, Inode, holders_of, is_excluded,
  leftover_holders_for, Recorded, Host, is_run_alive,
}
use claude_code_manager.Runs.Resolve.{
  RawLog, RunResolution, resolve_run, rows, uncovered_row, no_log_row, alive_row, log_row,
  leftovers_of, LivenessField, no_output_report_threshold, silence, is_none, changed_of,
  missing_liveness_fields, uncovered, result_of,
}

after_last-absent : (rest s : Text) → All (λ c. nat_eq c b')' ≡ false) s → after_last rest s ≡ rest
after_last-absent rest [] h = refl
after_last-absent rest (c ∷ s) h = rw (h.0) (after_last-absent rest s h.1)

after_last-paren :
    (rest before s : Text)
    → All (λ c. nat_eq c b')' ≡ false) s
    → after_last rest (before ++ b')' ∷ s) ≡ s
after_last-paren rest [] s h = after_last-absent s s h
after_last-paren rest (c ∷ before) s h = elim (Bool-cases (nat_eq c b')')) [
  | inl e ↦ rw (e) (after_last-paren (before ++ b')' ∷ s) before s h)
  | inr e ↦ rw (e) (after_last-paren rest before s h)
]

module _ (is_space : ℕ → Bool) where
  -- A field: not empty, and without spaces.
  abbrev pub IsWord : Text → Type 0
  IsWord w = (0 < length w) × All (λ d. is_space d ≡ false) w

  split_from-append :
      (w chars s : Text)
      → All (λ d. is_space d ≡ false) chars
      → split_from is_space w (chars ++ s) ≡ split_from is_space (w ++ chars) s
  unfolding split_from
  split_from-append w [] s h = ap (λ v. split_from is_space v s) (sym (append-nil w))
  split_from-append w (c ∷ chars) s h = rw (h.0) (
      split_from-append (w ++ c ∷ []) chars s h.1
      ∙ ap (λ v. split_from is_space v s) (append_assoc w (c ∷ []) chars))

  split_from_space :
      (w s : Text)
      → is_space b' ' ≡ true
      → split_from is_space w (b' ' ∷ s) ≡ emit_word w (split_from is_space [] s)
  unfolding split_from
  split_from_space w s sp = rw (sp, split_from) refl

  split_from-join_spaced :
      (ws : List Text)
      → is_space b' ' ≡ true
      → All IsWord ws
      → split_from is_space [] (join_spaced ws) ≡ ws
  unfolding split_from
  split_from-join_spaced [] sp h = refl
  split_from-join_spaced ([] ∷ ws) sp h = absurd (omega (arith, h.0.0))
  split_from-join_spaced ((c ∷ w) ∷ []) sp h =
      ap (split_from is_space []) (sym (append-nil (c ∷ w))) ∙ split_from-append [] (c ∷ w) [] h.0.1
  split_from-join_spaced ((c ∷ w) ∷ v ∷ ws) sp h =
      split_from-append [] (c ∷ w) (b' ' ∷ join_spaced (v ∷ ws)) h.0.1
      ∙ split_from_space (c ∷ w) (join_spaced (v ∷ ws)) sp
      ∙ ap (λ l. (c ∷ w) ∷ l) (split_from-join_spaced (v ∷ ws) sp h.1)

  -- Whatever the name of the process is, spaces and closing parentheses included: fields 22 and 3
  -- of its stat file are read, where the fields behind the name have neither.
  pub read_pid_stat-fields :
      (name : Text) (fields : List Text)
      → is_space b' ' ≡ true
      → All IsWord fields
      → All (λ c. nat_eq c b')' ≡ false) (join_spaced fields)
      → read_pid_stat is_space (some (name ++ b')' ∷ b' ' ∷ join_spaced fields))
        ≡ stat_fields fields
  unfolding read_pid_stat split_from
  read_pid_stat-fields name fields sp words plain =
      ap (λ s. stat_fields (split_from is_space [] s))
        (after_last-paren _ name (b' ' ∷ join_spaced fields) (refl, plain))
      ∙ ap stat_fields
          (split_from_space [] (join_spaced fields) sp ∙ split_from-join_spaced fields sp words)

-- Neither the run nor this process, and none of those that are never killed.
pub record IsForeign (run_pid : Option ℕ) (own : ℕ) (h : HolderProcess) : Type 0 where
  pub not_run : run_pid ≢ some h.pid
  pub not_own : own ≢ h.pid
  pub not_idle : h.pid ≢ 0
  pub not_init : h.pid ≢ 1

not_excluded-IsForeign :
    (run_pid : Option ℕ) (own : ℕ) (h : HolderProcess)
    → is_excluded run_pid own h ≡ false
    → IsForeign run_pid own h
not_excluded-IsForeign run_pid own h e = record {
  not_run = λ same. ground (arith, e, same);
  not_own = ground (arith, e);
  not_idle = ground (arith, e);
  not_init = ground (arith, e);
}

filter-IsForeign :
    (run_pid : Option ℕ) (own : ℕ) (hs : List HolderProcess)
    → All (IsForeign run_pid own) (filter (λ h. not (is_excluded run_pid own h)) hs)
filter-IsForeign run_pid own [] = tt
filter-IsForeign run_pid own (h ∷ hs) = elim (Bool-cases (is_excluded run_pid own h)) [
  | inl e ↦ rw (e) (filter-IsForeign run_pid own hs)
  | inr e ↦ rw (e) (not_excluded-IsForeign run_pid own h e, filter-IsForeign run_pid own hs)
]

leftover_holders_for-IsForeign :
    (inode : Option Inode) (scan : Scan) (run_pid : Option ℕ) (own : ℕ)
    → All (IsForeign run_pid own) (leftover_holders_for inode scan run_pid own)
unfolding leftover_holders_for
leftover_holders_for-IsForeign none scan run_pid own = tt
leftover_holders_for-IsForeign (some key) scan run_pid own =
    filter-IsForeign run_pid own (holders_of scan key)

module _ (host : Host) (r : Recorded) where
  abbrev IsForeignOnly : RunResolution → Type 0
  IsForeignOnly res = All (IsForeign r.pid host.own_pid) res.leftover_holders

  uncovered_row-IsForeign : (b : Bool) (c : Option ℕ) → IsForeignOnly (uncovered_row b c)
  uncovered_row-IsForeign true c = tt
  uncovered_row-IsForeign false c = tt

  no_log_row-IsForeign : (b : Bool) → IsForeignOnly (no_log_row b)
  no_log_row-IsForeign true = tt
  no_log_row-IsForeign false = tt

  alive_row-IsForeign :
      (c : Option ℕ) (now : ℕ) (missing : List LivenessField)
      → IsForeignOnly (alive_row c now missing)
  alive_row-IsForeign c now missing =
      elim (Bool-cases (ltb no_output_report_threshold (silence c now))) [
        | inl e ↦ rw (e) tt
        | inr e ↦ rw (e) tt
      ]

  log_row-IsForeign :
      (result : Option Event) (b : Bool) (c : Option ℕ) (now : ℕ) (missing : List LivenessField)
      (leftovers : List HolderProcess)
      → All (IsForeign r.pid host.own_pid) leftovers
      → IsForeignOnly (log_row result b c now missing leftovers)
  log_row-IsForeign (some e) b c now missing leftovers h = h
  log_row-IsForeign none true c now missing leftovers h = alive_row-IsForeign c now missing
  log_row-IsForeign none false c now missing leftovers h = h

  leftovers_of-IsForeign :
      (alive : Bool) (scan : Option Scan) (log : RawLog)
      → All (IsForeign r.pid host.own_pid) (leftovers_of host alive scan log r.pid)
  leftovers_of-IsForeign alive none log = tt
  leftovers_of-IsForeign true (some scan) log = tt
  leftovers_of-IsForeign false (some scan) log =
      leftover_holders_for-IsForeign log.inode scan r.pid host.own_pid

  rows-IsForeign :
      (raw : Option RawLog) (u : Bool) (result : Option Event) (scan : Option Scan) (now : ℕ)
      (alive : Bool)
      → IsForeignOnly (rows host raw r u result scan now alive)
  unfolding rows
  rows-IsForeign raw u result scan now alive = elim (Bool-cases (u && is_none result)) [
    | inl e ↦ rw (e) (uncovered_row-IsForeign _ (changed_of raw))
    | inr e ↦ rw (e) (go raw)
  ]
    where
      go :
          (raw : Option RawLog)
          → IsForeignOnly (elim raw [
            | none ↦ no_log_row (alive || not (is_empty (missing_liveness_fields r)))
            | some log ↦
                log_row result
                  (alive || not (is_empty (missing_liveness_fields r)))
                  log.changed
                  now
                  (missing_liveness_fields r)
                  (leftovers_of host alive scan log r.pid)
          ])
      go none = no_log_row-IsForeign _
      go (some log) =
          log_row-IsForeign result _ log.changed now (missing_liveness_fields r) _
            (leftovers_of-IsForeign alive scan log)

module _ {V : Type 0} (json : Json V) (t : Translator V) where
  -- The leftover processes that a resolution names never include the run's own pid, this process,
  -- or the pids 0 and 1.
  pub resolve_run-IsForeign :
      (host : Host) (raw : Option RawLog) (r : Recorded) (backend : Option String)
      (scan : Option Scan) (now : ℕ) (res : RunResolution)
      → resolve_run json t host raw r backend scan now ≡ ok res
      → All (IsForeign r.pid host.own_pid) res.leftover_holders
  unfolding resolve_run
  resolve_run-IsForeign host raw r backend scan now res h =
      elim (Bool-cases (is_none raw && is_none r.pid)) [
        | inl e ↦ subst IsForeignHere (ok-inj (rw (e) at h)) tt
        | inr e ↦
            let (alive, _, returned) = >>=-eq-ok (is_run_alive host r) _ (rw (e) at h) in
            subst IsForeignHere (ok-inj returned)
              (rows-IsForeign host r raw (uncovered backend) (result_of json t raw) scan now alive)
      ]
    where
      IsForeignHere : RunResolution → Type 0
      IsForeignHere x = All (IsForeign r.pid host.own_pid) x.leftover_holders
