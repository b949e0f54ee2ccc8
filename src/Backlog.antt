-- ===== src/Backlog.antt =====
-- src/core/backlog_loop.py: what the improvement loop does next with its backlog.
--
-- The file holds a list, or a dict with the list under `items` or `backlog`; a dict is saved back as
-- a list. An empty text stands for a missing field. A time is in microseconds, and so is the timeout
-- of the configuration, which is not negative. Ids are ASCII. The wording of the prompts is left
-- out: an action carries what its prompt is built from. The commit of a reset never raises.
pub mod Ids
pub mod Choice
pub mod Decision
mod Tests
use claude_code_manager.Base.{
  ℕ, zero, suc, ◌+◌, ◌-◌, ◌<◌, Bool, true, false, not, ◌&&◌, ◌||◌, Option, none, some, List, [],
  ◌∷◌, ◌++◌, if◌then◌else◌, ltb, leb, nat_eq, is_empty, any, all, filter, max, Text, codes, length,
  drop, starts_with, is_digit, number_from, padded,
}

pub data Status : Type 0 where
  revision_requested in_progress failed approved pending : Status
  other_status : ℕ → Status

pub data Priority : Type 0 where
  high medium low other_priority : Priority

-- A timestamp field: a text, a datetime at its instant where a naive one counts as UTC, or a value
-- of another kind.
pub data Stamp : Type 0 where
  missing : Stamp
  written : Text → Stamp
  datetime : ℕ → Stamp
  other_value : Stamp

pub record Item : Type 0 where
  pub id : Text
  pub status : Status
  pub priority : Option Priority
  pub revision_feedback : Text
  pub in_progress_at : Stamp
  pub created : Stamp
  pub failed_reason : Option ℕ

pub data Backlog : Type 0 where
  no_file : Backlog
  as_list : List Item → Backlog
  as_dict : Option (List Item) → Option (List Item) → Backlog

unfoldable pub load_backlog : Backlog → List Item
load_backlog no_file = []
load_backlog (as_list items) = items
load_backlog (as_dict (some items) backlog) = items
load_backlog (as_dict none (some items)) = items
load_backlog (as_dict none none) = []

pub record Config : Type 0 where
  pub id_prefix : Text
  pub max_pending : ℕ
  pub stale_timeout : ℕ

-- The number of an id: the digits behind the prefix and a dash, or all of it where there is no
-- prefix.
abbrev pub digits_of : Text → Text → Option Text
digits_of [] id = some id
digits_of (c ∷ prefix) id =
    let head = (c ∷ prefix) ++ b'-' ∷ [] in
    if starts_with head id then some (drop (length head) id) else none

abbrev pub number_of_digits : Text → Option ℕ
number_of_digits s = if not (is_empty s) && all is_digit s then some (number_from 0 s) else none

unfoldable pub id_number : Text → Text → Option ℕ
id_number prefix id = elim (digits_of prefix id) [ none ↦ none | some s ↦ number_of_digits s ]

abbrev pub at_least : ℕ → Option ℕ → ℕ
at_least n none = n
at_least n (some m) = max n m

unfoldable pub max_num : Text → ℕ → List Item → ℕ
max_num prefix n [] = n
max_num prefix n (item ∷ items) = max_num prefix (at_least n (id_number prefix item.id)) items

abbrev pub dashed : Text → Text
dashed [] = []
dashed (c ∷ prefix) = (c ∷ prefix) ++ b'-' ∷ []

unfoldable pub next_id : List Item → Text → Text
next_id items prefix = dashed prefix ++ padded 3 (max_num prefix 0 items + 1)

abbrev pub has_status : Status → Item → Bool
has_status revision_requested item = elim item.status [ revision_requested ↦ true | _ ↦ false ]
has_status in_progress item = elim item.status [ in_progress ↦ true | _ ↦ false ]
has_status failed item = elim item.status [ failed ↦ true | _ ↦ false ]
has_status approved item = elim item.status [ approved ↦ true | _ ↦ false ]
has_status pending item = elim item.status [ pending ↦ true | _ ↦ false ]
has_status (other_status n) item = elim item.status [ other_status m ↦ nat_eq m n | _ ↦ false ]

abbrev pub wants_revision : Item → Bool
wants_revision item = has_status revision_requested item && not (is_empty item.revision_feedback)

-- `_check_revision`
unfoldable pub check_revision : List Item → Option Item
check_revision [] = none
check_revision (item ∷ items) = if wants_revision item then some item else check_revision items

abbrev pub or_stamp : Stamp → Stamp → Stamp
or_stamp missing created = created
or_stamp (written []) created = created
or_stamp stamp created = stamp

abbrev rank_of : Priority → ℕ
rank_of high = 0
rank_of medium = 1
rank_of low = 2
rank_of other_priority = 2

unfoldable pub priority_rank : Item → ℕ
priority_rank item = elim item.priority [ none ↦ rank_of low | some p ↦ rank_of p ]

-- The stable sort of the approved items.
unfoldable pub insert_by_rank : Item → List Item → List Item
insert_by_rank item [] = item ∷ []
insert_by_rank item (next ∷ items) =
    let rest = insert_by_rank item items in
    if leb (priority_rank item) (priority_rank next) then item ∷ next ∷ items else next ∷ rest

unfoldable pub sort_by_rank : List Item → List Item
sort_by_rank [] = []
sort_by_rank (item ∷ items) = insert_by_rank item (sort_by_rank items)

pub data Action : Type 0 where
  revision implement : Item → Action
  stale_reset scan noop : Action
  generate : Text → Action

abbrev pub is_active : Item → Bool
is_active item = has_status approved item || has_status in_progress item

-- The steps behind the approved items.
abbrev pub generate_or_scan : List Item → Config → Action
generate_or_scan items cfg =
    if any is_active items
    then noop
    else if ltb (length (filter (has_status pending) items)) cfg.max_pending
    then generate (next_id items cfg.id_prefix)
    else scan

abbrev pub implement_or : List Item → Action → Action
implement_or [] next = next
implement_or (item ∷ items) next = implement item

-- `parse_utc_datetime` of a text, or nothing where it raises
module _ (parse : Text → Option ℕ) where
  unfoldable pub started_at : Stamp → Option ℕ
  started_at missing = none
  started_at (written []) = none
  started_at (written (c ∷ s)) = parse (c ∷ s)
  started_at (datetime t) = some t
  started_at other_value = none

  abbrev elapsed_more : ℕ → ℕ → Option ℕ → Bool
  elapsed_more now timeout none = false
  elapsed_more now timeout (some t) = ltb timeout (now - t)

  unfoldable pub is_stale : ℕ → Config → Item → Bool
  is_stale now cfg item =
      has_status in_progress item
      && elapsed_more now cfg.stale_timeout (started_at (or_stamp item.in_progress_at item.created))

  unfoldable pub reset : ℕ → Config → List Item → List Item
  reset now cfg [] = []
  reset now cfg (item ∷ items) =
      (if is_stale now cfg item
        then record item { status = failed; failed_reason = some cfg.stale_timeout }
        else item)
      ∷ reset now cfg items

  -- `_handle_stale`: whether it modified an item, and the file after it.
  unfoldable pub handle_stale : ℕ → Config → List Item → Backlog → Bool × Backlog
  handle_stale now cfg items file =
      if any (is_stale now cfg) items then (true, as_list (reset now cfg items)) else (false, file)

  unfoldable pub determine_action : ℕ → Config → Backlog → Action × Backlog
  determine_action now cfg file =
      let items = load_backlog file in
      let (was_reset, file') = handle_stale now cfg items file in
      elim (check_revision items) [
        | some item ↦ (revision item, file)
        | none ↦ if was_reset then (stale_reset, file') else (
          implement_or (sort_by_rank (filter (has_status approved) items))
              (generate_or_scan items cfg),
          file,
        )
      ]
