-- ===== src/Takeoff/Tests.antt =====
-- The gate of src/core/takeoff_gate.py on small histories.
use claude_code_manager.Base.{
  ℕ, ◌+◌, ◌≡◌, refl, ◌↔◌, ◌⊎◌, ◌≤◌, ◌<◌, true, some, List, [], ◌∷◌, ◌++◌, String, codes, nat_eq,
  leb, if◌then◌else◌, ok, raise, map, split_from, arith,
}
use claude_code_manager.Memo.{empty_memo, get, lookup}
use claude_code_manager.Takeoff.{
  text, Event, aware, Runtime, is_real_user_message, normalize_takeoff_content, pre_takeoff_window,
  check_takeoff_gate, settled_user_answers, settle, scan_cold, backward_user_answers, walk, visit,
  stamp, parse_timestamp, judge, pre_takeoff_active, delegation_blocked,
}
use claude_code_manager.Takeoff.Walk.{
  backward_user_answers-eq, meaning, last_user, last_stamp, says_takeoff,
}
use claude_code_manager.Takeoff.Settled.{
  World, set_list, start, Reach, here, next, append, events_of,
}
use claude_code_manager.Takeoff.Verdict.{check_takeoff_gate_iff}

abbrev lower : ℕ → ℕ
lower c = if leb b'A' c then (if leb c b'Z' then c + 32 else c) else c

-- ASCII letters, spaces and newlines, and one stamp, at time 1000.
abbrev ascii : Runtime
ascii = record {
  casefold = map lower;
  is_space = λ c. if nat_eq c b' ' then true else nat_eq c 10;
  from_iso = λ s. some (aware 1000);
}

abbrev user_says : String → Event
user_says s = record { type = "user"; content = text (codes s); timestamp = some (codes "t") }

abbrev history : List Event
history = user_says "Pre  TAKE off" ∷ user_says "go on" ∷ []

backward_user_answers-eq_example : backward_user_answers ascii history ≡ meaning ascii history
backward_user_answers-eq_example = backward_user_answers-eq ascii history

abbrev told : World
told = set_list 0 ((start 64).lists 0 ++ history) (start 64)

told-Reach : Reach ascii (start 64) told
unfolding start
told-Reach = next here (append 0 history (omega arith))

-- The latest message says nothing: the stamp decides.
told_passes :
    (check_takeoff_gate ascii "s" (told.current "s") (events_of told "s") (aware 1001) told.memo).0
    ≡ ok tt
unfolding start check_takeoff_gate settled_user_answers settle scan_cold backward_user_answers walk
    visit stamp parse_timestamp judge pre_takeoff_active is_real_user_message
    normalize_takeoff_content split_from get lookup empty_memo
told_passes = refl

told_expires :
    (check_takeoff_gate ascii "s"
      (told.current "s")
      (events_of told "s")
      (aware (1000 + pre_takeoff_window))
      told.memo).0
    ≡ raise delegation_blocked
unfolding start check_takeoff_gate settled_user_answers settle scan_cold backward_user_answers walk
    visit stamp parse_timestamp judge pre_takeoff_active is_real_user_message
    normalize_takeoff_content split_from get lookup empty_memo
told_expires = refl

check_takeoff_gate_iff_example :
    ((check_takeoff_gate ascii "s" (told.current "s") (events_of told "s") (aware 1001) told.memo).0
      ≡ ok tt)
    ↔ ((says_takeoff ascii (last_user (events_of told "s")) ≡ true)
        ⊎ ((t : ℕ) × (last_stamp ascii (events_of told "s") ≡ some t)
            × (t ≤ 1001)
            × (1001 < t + pre_takeoff_window)))
check_takeoff_gate_iff_example = check_takeoff_gate_iff ascii 64 told "s" 1001 told-Reach

abbrev pre_said : World
pre_said = set_list 0 ((start 64).lists 0 ++ user_says "pre take off" ∷ []) (start 64)

-- The phrase of the last message holds whatever its stamp.
pre_said_passes :
    (check_takeoff_gate ascii "s"
      (pre_said.current "s")
      (events_of pre_said "s")
      (aware 900_000_000_000)
      pre_said.memo).0
    ≡ ok tt
unfolding start check_takeoff_gate settled_user_answers settle scan_cold backward_user_answers walk
    visit stamp parse_timestamp judge pre_takeoff_active is_real_user_message
    normalize_takeoff_content split_from get lookup empty_memo
pre_said_passes = refl
