-- ===== src/Runs/Process.antt =====
-- The processes of src/core/runs.py: whether a recorded one lives, and which hold a raw log.
use claude_code_manager.Base.{
  ℕ, Bool, false, not, ◌&&◌, ◌||◌, Option, none, some, List, [], ◌∷◌, if◌then◌else◌, Text, nat_eq,
  ltb, String_eq, Text_eq, ℕ_eq, ◌==◌, Outcome, ok, raise, split_from, get_elem?, filter,
}

pub record HolderProcess : Type 0 where
  pub pid : ℕ
  pub cmdline : Text

-- `content.rpartition(")")[2]`, with what stands behind the last `)` so far
abbrev pub after_last : Text → Text → Text
after_last rest [] = rest
after_last rest (c ∷ s) = if nat_eq c b')' then after_last s s else after_last rest s

abbrev pub stat_fields : List Text → Option (Text × Text)
stat_fields fields = elim (get_elem? fields 19) [
  | none ↦ none
  | some start ↦ elim (get_elem? fields 0) [ none ↦ none | some state ↦ some (start, state) ]
]

-- `read_pid_stat`, of the file's content, none where it cannot be read
unfoldable pub read_pid_stat : (ℕ → Bool) → Option Text → Option (Text × Text)
read_pid_stat is_space none = none
read_pid_stat is_space (some content) =
    stat_fields (split_from is_space [] (after_last content content))

-- A recorded time, with or without a timezone.
pub data StartedAt : Type 0 where
  naive aware : ℕ → StartedAt

pub data RunError : Type 0 where
  naive_started_at : RunError

abbrev pub began_after_boot : StartedAt → ℕ → Outcome RunError Bool
began_after_boot (naive t) boot = raise naive_started_at
began_after_boot (aware t) boot = ok (ltb boot t)

abbrev pub judge_stat : Option (Text × Text) → Text → StartedAt → ℕ → Outcome RunError Bool
judge_stat none pid_start started boot = ok false
judge_stat (some (start, state)) pid_start started boot =
    if not (start == pid_start) || (state == b'Z' ∷ [])
    then ok false
    else began_after_boot started boot

-- What is recorded of a run's process.
pub record Recorded : Type 0 where
  pub pid : Option ℕ
  pub pid_start : Option Text
  pub started_at : Option StartedAt

-- The host: what /proc/<pid>/stat holds, the boot time, this process, and what a space is.
pub record Host : Type 0 where
  pub stat : ℕ → Option Text
  pub boot_time : ℕ
  pub own_pid : ℕ
  pub is_space : ℕ → Bool

-- `is_run_alive`
unfoldable pub is_run_alive : Host → Recorded → Outcome RunError Bool
is_run_alive host r = elim r.pid [
  | none ↦ ok false
  | some pid ↦ elim r.pid_start [
    | none ↦ ok false
    | some pid_start ↦ elim r.started_at [
      | none ↦ ok false
      | some started ↦
          judge_stat (read_pid_stat host.is_space (host.stat pid)) pid_start started host.boot_time
    ]
  ]
]

-- Device and inode of a file.
abbrev pub Inode : Type 0
Inode = ℕ × ℕ

abbrev pub Scan : Type 0
Scan = List (Inode × List HolderProcess)

-- `holders_scan.get(key, [])`
abbrev pub holders_of : Scan → Inode → List HolderProcess
holders_of [] key = []
holders_of ((k, hs) ∷ scan) key =
    if (k.0 == key.0) && (k.1 == key.1) then hs else holders_of scan key

abbrev pub is_pid : Option ℕ → ℕ → Bool
is_pid none pid = false
is_pid (some p) pid = p == pid

-- Whether a holder is left out: the run itself, this process, and those that are never killed.
abbrev pub is_excluded : Option ℕ → ℕ → HolderProcess → Bool
is_excluded run_pid own h = is_pid run_pid h.pid || (own == h.pid) || (h.pid == 0) || (h.pid == 1)

unfoldable pub leftover_holders_for : Option Inode → Scan → Option ℕ → ℕ → List HolderProcess
leftover_holders_for none scan run_pid own = []
leftover_holders_for (some key) scan run_pid own =
    filter (λ h. not (is_excluded run_pid own h)) (holders_of scan key)
