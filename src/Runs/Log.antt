-- ===== src/Runs/Log.antt =====
-- The raw log of src/core/runs.py: its events, the last result, the cursor.
use claude_code_manager.Base.{
  ℕ, zero, suc, Bool, true, false, not, ◌&&◌, Option, none, some, List, [], ◌∷◌, ◌++◌,
  if◌then◌else◌, take, drop, length, Text, nat_eq, String, String_eq, Text_eq, ℕ_eq, ◌==◌, ℤ, pos,
  negsuc,
}
use claude_code_manager.Ndjson.{Json, text_line, iter_ndjson_events, newline}

-- `raw_bytes.find(b"\n", start)`, from the part behind `start`
unfoldable pub find_newline : Text → Option ℕ
find_newline [] = none
find_newline (c ∷ s) =
    if nat_eq c newline
    then some 0
    else (elim (find_newline s) [ none ↦ none | some n ↦ some (suc n) ])

-- The pieces that `parse_raw_lines` walks; each ends behind where it starts, so that the length of
-- the log is enough fuel.
unfoldable pub raw_pieces : ℕ → Text → List Text
raw_pieces zero rest = []
raw_pieces (suc fuel) [] = []
raw_pieces (suc fuel) (c ∷ rest) = elim (find_newline (c ∷ rest)) [
  | none ↦ (c ∷ rest) ∷ []
  | some n ↦ take n (c ∷ rest) ∷ raw_pieces fuel (drop (suc n) (c ∷ rest))
]

module _ {V : Type 0} where
  abbrev pub as_events : List V → List (Option V)
  as_events [] = []
  as_events (v ∷ vs) = some v ∷ as_events vs

  -- What the strict parse takes is kept, null included; the rest goes through the readers.
  abbrev pub piece_events : Json V → Text → List (Option V)
  piece_events json piece = elim (json.loads piece) [
    | some v ↦ v ∷ []
    | none ↦ as_events (iter_ndjson_events json (text_line (json.decode piece) ∷ []))
  ]

  abbrev pub pieces_events : Json V → List Text → List (Option V)
  pieces_events json [] = []
  pieces_events json (p ∷ ps) = piece_events json p ++ pieces_events json ps

  -- `parse_raw_lines`
  unfoldable pub parse_raw_lines : Json V → Text → List (Option V)
  parse_raw_lines json raw = pieces_events json (raw_pieces (length raw) raw)

pub data Value : Type 0 where
  null other : Value
  boolean : Bool → Value
  number : Bool → Value
  string : String → Value

-- A translated event: what `get` answers for its keys, null where one is missing. A number is known
-- by whether it is zero.
pub record Event : Type 0 where
  pub kind : Value
  pub subtype : Value
  pub is_error : Value

abbrev pub is_result : Event → Bool
is_result e = elim e.kind [ string s ↦ s == "result" | _ ↦ false ]

-- `summarize_result`, with the last result so far
unfoldable pub summarize : Option Event → List Event → Option Event
summarize last [] = last
summarize last (e ∷ es) = summarize (if is_result e then some e else last) es

abbrev pub summarize_result : List Event → Option Event
summarize_result es = summarize none es

abbrev pub none_or_success : Value → Bool
none_or_success null = true
none_or_success (string s) = s == "success"
none_or_success _ = false

-- Python's 0 equals False.
abbrev pub none_or_false : Value → Bool
none_or_false null = true
none_or_false (boolean b) = not b
none_or_false (number is_zero) = is_zero
none_or_false _ = false

abbrev pub result_success : Event → Bool
result_success e = none_or_success e.subtype && none_or_false e.is_error

-- A backend's `translate`, with the state that it buffers in.
pub record Translator (V : Type 0) : Type 1 where
  pub State : Type 0
  pub fresh : State
  pub translate : State → Option V → List Event × State

module _ {V : Type 0} where
  -- `project_raw_events`
  unfoldable pub project_from : (t : Translator V) → t.State → List (Option V) → List Event
  project_from t state [] = []
  project_from t state (v ∷ vs) =
      let (events, after) = t.translate state v in events ++ project_from t after vs

  abbrev pub project_raw_file : Json V → Translator V → Text → List Event
  project_raw_file json t raw = project_from t t.fresh (parse_raw_lines json raw)

  -- The raw log: its bytes, its last change where `stat` answers, and its inode.
  unfoldable pub scan_result_exit :
      Json V → Translator V → Option Text → List Event × Option Event × ℤ
  scan_result_exit json t raw =
      let events : List Event = elim raw [ none ↦ [] | some b ↦ project_raw_file json t b ] in
      let result = summarize_result events in
      (
        events,
        result,
        elim result [ none ↦ negsuc 0 | some e ↦ if result_success e then pos 0 else negsuc 0 ],
      )

-- `read_raw_cursor`: what `int` makes of the file, where it can be read and is a number
abbrev pub read_raw_cursor : (Text → Option ℤ) → Option Text → ℤ
read_raw_cursor to_int none = pos 0
read_raw_cursor to_int (some s) = elim (to_int s) [ none ↦ pos 0 | some n ↦ n ]
