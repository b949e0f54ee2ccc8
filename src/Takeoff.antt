-- ===== src/Takeoff.antt =====
-- src/core/takeoff_gate.py: the authorization gate for delegations, with the memo of its answers.
--
-- A chat event is its type, its content (text, or anything else) and its timestamp (text, or
-- none). Times are microseconds in UTC since the first year that `datetime` has. What Python's
-- Unicode tables and its ISO parser decide is the parameter `Runtime`. A list of events is an
-- object with an identity, since the memo compares lists by `is`.
pub mod Walk
pub mod Settled
pub mod Verdict
mod Tests
use claude_code_manager.Base.{
  ℕ, ◌+◌, ◌*◌, ◌≡◌, Bool, true, false, ◌&&◌, ◌||◌, Option, none, some, List, [], ◌∷◌, reverse,
  String, String_eq, ℕ_eq, ◌==◌, Text, codes, occurs_in, split_from, join_spaced, is_empty, length,
  take, drop, ltb, leb, if◌then◌else◌, Outcome, ok, raise,
}
use claude_code_manager.Memo.{BoundedMemo, get, store}

pub data Content : Type 0 where
  text : Text → Content
  other : Content

pub record Event : Type 0 where
  pub type : String
  pub content : Content
  pub timestamp : Option Text

-- What `datetime.fromisoformat` yields: a time with a zone, as UTC, or one without.
pub data Instant : Type 0 where
  aware : ℕ → Instant
  naive : Instant

-- `str.casefold`, `str.isspace` and `datetime.fromisoformat`.
pub record Runtime : Type 0 where
  pub casefold : Text → Text
  pub is_space : ℕ → Bool
  pub from_iso : Text → Option Instant

abbrev pub pre_takeoff_phrase : Text
pre_takeoff_phrase = codes "pre take off"

abbrev pub takeoff_phrase : Text
takeoff_phrase = codes "take off"

-- twelve hours
abbrev pub pre_takeoff_window : ℕ
pre_takeoff_window = 12 * 3600 * 1000000

unfoldable pub is_real_user_message : Event → Bool
is_real_user_message e = (e.type == "user") && elim e.content [ text s ↦ true | other ↦ false ]

-- The two answers of a span, and whether it held a real user message.
pub record Answers : Type 0 where
  pub has_takeoff : Bool
  pub pre_takeoff_at : Option ℕ
  pub seen_user : Bool

abbrev pub no_answers : Answers
no_answers = record { has_takeoff = false; pre_takeoff_at = none; seen_user = false }

module _ (rt : Runtime) where
  unfoldable pub normalize_takeoff_content : Content → Text
  normalize_takeoff_content (text s) = join_spaced (split_from rt.is_space [] (rt.casefold s))
  normalize_takeoff_content other = []

  unfoldable pub parse_timestamp : Option Text → Option ℕ
  parse_timestamp none = none
  parse_timestamp (some s) = if is_empty s then none else elim (rt.from_iso s) [
    | none ↦ none
    | some i ↦ elim i [ naive ↦ none | aware t ↦ some t ]
  ]

  -- The stamp of a message that carries the pre-takeoff phrase.
  unfoldable pub stamp : Event → Option ℕ
  stamp e =
      if occurs_in pre_takeoff_phrase (normalize_takeoff_content e.content)
      then parse_timestamp e.timestamp
      else none

  -- One round of the backward loop.
  unfoldable pub visit : Answers → Event → Answers
  visit a e =
      if is_real_user_message e
      then record {
        has_takeoff =
            if a.seen_user
            then a.has_takeoff
            else occurs_in takeoff_phrase (normalize_takeoff_content e.content);
        pre_takeoff_at = elim a.pre_takeoff_at [ some t ↦ some t | none ↦ stamp e ];
        seen_user = true;
      }
      else a

  unfoldable pub walk : Answers → List Event → Answers
  walk a [] = a
  walk a (e ∷ es) = walk (visit a e) es

  unfoldable pub backward_user_answers : List Event → Answers
  backward_user_answers events = walk no_answers (reverse events)

-- A memo entry: the list that it pins, the length that it covers, and the two answers.
pub record Entry : Type 0 where
  pub object : ℕ
  pub covered : ℕ
  pub has_takeoff : Bool
  pub pre_takeoff_at : Option ℕ

module _ (rt : Runtime) where
  -- The answers over a list, and the entry to store, from what the memo held.
  unfoldable pub scan_cold : ℕ → List Event → Entry
  scan_cold object events =
      let a = backward_user_answers rt events in
      record {
        object = object;
        covered = length events;
        has_takeoff = a.has_takeoff;
        pre_takeoff_at = a.pre_takeoff_at;
      }

  unfoldable pub fold_suffix : Entry → List Event → Entry
  fold_suffix c suffix =
      let a = backward_user_answers rt suffix in
      record c {
        covered = c.covered + length suffix;
        has_takeoff = if a.seen_user then a.has_takeoff else c.has_takeoff;
        pre_takeoff_at = elim a.pre_takeoff_at [ some t ↦ some t | none ↦ c.pre_takeoff_at ];
      }

  -- The entry whose answers are returned, and whether it is stored.
  unfoldable pub settle : Option Entry → ℕ → List Event → Entry × Bool
  settle none object events = (scan_cold object events, true)
  settle (some c) object events =
      if c.object == object
      then (let suffix = drop c.covered events in
          if is_empty suffix then (c, false) else (fold_suffix c suffix, true))
      else (scan_cold object events, true)

  -- `_settled_user_answers`
  unfoldable pub settled_user_answers :
      String → ℕ → List Event → BoundedMemo String Entry → Entry × BoundedMemo String Entry
  settled_user_answers session object events memo =
      let (cached, memo') = get session memo in
      let (entry, stores) = settle cached object events in
      (entry, if stores then store session entry memo' else memo')

pub data GateError : Type 0 where
  value_error delegation_blocked : GateError

unfoldable pub pre_takeoff_active : Option ℕ → ℕ → Bool
pre_takeoff_active none now = false
pre_takeoff_active (some t) now = leb t now && ltb now (t + pre_takeoff_window)

unfoldable pub judge : Bool → Option ℕ → ℕ → Outcome GateError (Unit {0})
judge has_takeoff pre now =
    if has_takeoff || pre_takeoff_active pre now then ok tt else raise delegation_blocked

-- `check_takeoff_gate`, with the time of the check; the memo comes back beside the verdict.
unfoldable pub check_takeoff_gate :
    Runtime
    → String
    → ℕ
    → List Event
    → Instant
    → BoundedMemo String Entry
    → Outcome GateError (Unit {0}) × BoundedMemo String Entry
check_takeoff_gate rt session object events naive memo = (raise value_error, memo)
check_takeoff_gate rt session object events (aware now) memo =
    let (entry, memo') = settled_user_answers rt session object events memo in
    (judge entry.has_takeoff entry.pre_takeoff_at now, memo')
