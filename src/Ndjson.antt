-- ===== src/Ndjson.antt =====
-- src/core/ndjson.py: the readers and writers of newline-delimited JSON files.
--
-- A file is its bytes. The JSON parser, the decoder and the space test are parameters (`Json`); the
-- window and chunk sizes are arguments, and the source's are `tail_window_size` and
-- `count_chunk_size`. A missing file is `none`. An iterator is the list of what it yields; the
-- debug log of a skipped line is left out, and so are the memos, which Memo models.
pub mod Lines
pub mod Windows
pub mod FromEnd
pub mod Tail
pub mod Counting
pub mod Writing
mod Tests
use claude_code_manager.Base.{
  ℕ, zero, suc, ◌+◌, ◌-◌, ◌*◌, min, ◌≡◌, Bool, true, false, not, Option, none, some, List, [], ◌∷◌,
  ◌++◌, reverse, if◌then◌else◌, is_empty, take, drop, length, Text, nat_eq, ltb, leb, ◌&&◌, filter,
  ℤ, pos,
}

-- orjson and the decoding of bytes with `errors="replace"`. `loads` answers none where the parser
-- raises, and `some none` for the JSON value null, which Python has as None.
pub record Json (V : Type 0) : Type 0 where
  pub loads : Text → Option (Option V)
  pub loads_text : Text → Option (Option V)
  pub decode : Text → Text
  pub is_space : ℕ → Bool
  pub is_byte_space : ℕ → Bool

abbrev pub newline : ℕ
newline = 10

abbrev pub tail_window_size : ℕ
tail_window_size = 512 * 1024

abbrev pub count_chunk_size : ℕ
count_chunk_size = 1024 * 1024

-- A line of a file that is read as text, or as bytes.
pub data Line : Type 0 where
  text_line bytes_line : Text → Line

abbrev pub bytes_lines : List Text → List Line
bytes_lines [] = []
bytes_lines (s ∷ ss) = bytes_line s ∷ bytes_lines ss

abbrev pub text_lines : List Text → List Line
text_lines [] = []
text_lines (s ∷ ss) = text_line s ∷ text_lines ss

-- A file that `O_CREAT` makes is empty.
abbrev pub existing : Option Text → Text
existing none = []
existing (some file) = file

abbrev pub every : (ℕ → Bool) → Text → Bool
every p [] = true
every p (c ∷ s) = if p c then every p s else false

abbrev pub cons_head : ℕ → List Text → List Text
cons_head c [] = (c ∷ []) ∷ []
cons_head c (l ∷ ls) = (c ∷ l) ∷ ls

-- `data.split(b"\n")`
unfoldable pub split : Text → List Text
split [] = [] ∷ []
split (c ∷ s) = if nat_eq c newline then [] ∷ split s else cons_head c (split s)

-- `b"".join(pieces)`
abbrev pub join : List Text → Text
join [] = []
join (p ∷ ps) = p ++ join ps

abbrev pub shifted : Bool → Option ℕ → Option ℕ
shifted here (some n) = some (suc n)
shifted true none = some 0
shifted false none = none

-- `window.rfind(b"\n")`
unfoldable pub rfind : Text → Option ℕ
rfind [] = none
rfind (c ∷ s) = shifted (nat_eq c newline) (rfind s)

-- `np.count_nonzero(... == 0x0A)`
abbrev pub newlines : Text → ℕ
newlines [] = 0
newlines (c ∷ s) = if nat_eq c newline then suc (newlines s) else newlines s

module _ {V : Type 0} where
  abbrev pub parsed : Option (Option V) → Option V → Option V
  parsed none otherwise = otherwise
  parsed (some v) otherwise = v

  -- `parse_ndjson_line`
  unfoldable pub parse_ndjson_line : Json V → Line → Option V
  parse_ndjson_line json (text_line s) =
      if every json.is_space s then none else parsed (json.loads_text s) none
  parse_ndjson_line json (bytes_line s) =
      if every json.is_byte_space s
      then none
      else parsed (json.loads s) (parsed (json.loads_text (json.decode s)) none)

  -- Python's None is skipped.
  abbrev pub emit : Option V → List V → List V
  emit none vs = vs
  emit (some v) vs = v ∷ vs

  -- `iter_ndjson_events`
  unfoldable pub iter_ndjson_events : Json V → List Line → List V
  iter_ndjson_events json [] = []
  iter_ndjson_events json (l ∷ ls) = emit (parse_ndjson_line json l) (iter_ndjson_events json ls)

  -- The events of lines of bytes.
  abbrev pub events : Json V → List Text → List V
  events json ls = iter_ndjson_events json (bytes_lines ls)

-- What one step of the walk from the end yields, and what it leaves of the line that spans the
-- start of its window.
abbrev pub Segment : Type 0
Segment = List Text × List Text

-- A window within one line.
abbrev pub within_line : Bool → Text → List Text → Segment
within_line at_start window pending =
    ((if at_start then join (window ∷ pending) ∷ [] else []), window ∷ pending)

abbrev pub closed_lines : List Text → Text → List Text → List Text
closed_lines lines spanning [] = if is_empty spanning then lines else lines ++ spanning ∷ []
closed_lines lines spanning (p ∷ ps) = lines ++ join (spanning ∷ p ∷ ps) ∷ []

abbrev pub cut_first : Bool → List Text → Segment
cut_first true lines = (reverse lines, [])
cut_first false [] = ([], [])
cut_first false (first ∷ lines) = (reverse lines, first ∷ [])

abbrev pub segment_at : Option ℕ → Bool → Text → List Text → Segment
segment_at none at_start window pending = within_line at_start window pending
segment_at (some nl) at_start window pending =
    cut_first at_start (closed_lines (split (take nl window)) (drop (suc nl) window) pending)

unfoldable pub segment : Bool → Text → List Text → Segment
segment at_start window pending = segment_at (rfind window) at_start window pending

-- The loop of `iter_ndjson_events_from_end`: the position falls by `size`, down to 0 like
-- `max(0, pos - size)`, so that the length of the file is enough fuel.
unfoldable pub walk_back : {V : Type 0} → Json V → ℕ → Text → ℕ → ℕ → List Text → List V
walk_back json size file zero at pending = []
walk_back json size file (suc fuel) zero pending = []
walk_back json size file (suc fuel) (suc n) pending =
    let start = suc n - size in
    let (lines, left) = segment (nat_eq start 0) (take (suc n - start) (drop start file)) pending in
    events json lines ++ walk_back json size file fuel start left

unfoldable pub iter_ndjson_events_from_end : {V : Type 0} → Json V → ℕ → Option Text → List V
iter_ndjson_events_from_end json size none = []
iter_ndjson_events_from_end json size (some file) =
    walk_back json size file (length file) (length file) []

unfoldable pub parse_ndjson_tail_parseable : {V : Type 0} → Json V → ℕ → Option Text → ℤ → List V
parse_ndjson_tail_parseable json size file (pos (suc n)) =
    reverse (take (suc n) (iter_ndjson_events_from_end json size file))
parse_ndjson_tail_parseable json size file _ = []

-- `chunk[-1:]` of a chunk that is not empty
abbrev pub last_byte : ℕ → Text → Option ℕ
last_byte c [] = some c
last_byte c (d ∷ s) = last_byte d s

-- A last line without a newline counts.
abbrev pub open_line : Option ℕ → ℕ
open_line none = 0
open_line (some c) = if nat_eq c newline then 0 else 1

-- `_count_lines`: a read takes `size` bytes, fewer at the end of the file and none behind it, so
-- that the length of the file and one more is enough fuel.
unfoldable pub count_loop : ℕ → ℕ → Text → ℕ → Option ℕ → ℕ
count_loop zero size rest total last = total
count_loop (suc fuel) size rest total last = elim (take size rest) [
  | [] ↦ total + open_line last
  | c ∷ cs ↦ count_loop fuel size (drop size rest) (total + newlines (c ∷ cs)) (last_byte c cs)
]

unfoldable pub count_lines : ℕ → Text → ℕ
count_lines size file = count_loop (suc (length file)) size file 0 none

-- `count_ndjson_lines`
unfoldable pub count_ndjson_lines : ℕ → Option Text → ℕ
count_ndjson_lines chunk none = 0
count_ndjson_lines chunk (some file) = count_lines chunk file

abbrev pub drop_last_empty : List Text → List Text
drop_last_empty [] = []
drop_last_empty ([] ∷ []) = []
drop_last_empty ((c ∷ l) ∷ []) = (c ∷ l) ∷ []
drop_last_empty (l ∷ m ∷ ls) = l ∷ drop_last_empty (m ∷ ls)

-- The lines that the tail reader keeps.
abbrev pub is_kept : {V : Type 0} → Json V → Text → Bool
is_kept json l = not (every json.is_byte_space l)

-- `xs[-n:]` for a positive n
abbrev pub last_n {ℓ} : {A : Type ℓ} → ℕ → List A → List A
last_n n xs = drop (length xs - n) xs

abbrev pub window_lines : {V : Type 0} → Json V → ℕ → Text → List Text
window_lines json size file =
    filter (is_kept json) (drop_last_empty (drop 1 (split (drop (length file - size) file))))

unfoldable pub tail_lines : {V : Type 0} → Json V → ℕ → Text → ℕ → List Text
tail_lines json size file n =
    if ltb size (length file) && leb n (length (window_lines json size file))
    then last_n n (window_lines json size file)
    else last_n n (filter (is_kept json) (split file))

-- `parse_ndjson_tail` without its memo: the events, the number of lines, and whether there are
-- more than the limit
abbrev pub tail_page : {V : Type 0} → Json V → ℕ → Text → ℕ → ℕ → List V × ℕ × Bool
tail_page json size file limit total =
    if nat_eq (min limit total) 0
    then ([], total, ltb limit total)
    else (events json (tail_lines json size file (min limit total)), total, ltb limit total)

unfoldable pub parse_ndjson_tail :
    {V : Type 0} → Json V → ℕ → ℕ → Option Text → ℕ → List V × ℕ × Bool
parse_ndjson_tail json size chunk none limit = ([], 0, false)
parse_ndjson_tail json size chunk (some file) limit =
    let total = count_ndjson_lines chunk (some file) in
    if nat_eq total 0 then ([], 0, false) else tail_page json size file limit total

-- `parse_ndjson_file` and `parse_ndjson_range`, over the lines that the file yields as text
unfoldable pub parse_ndjson_file : {V : Type 0} → Json V → Option (List Text) → List V
parse_ndjson_file json none = []
parse_ndjson_file json (some ls) = iter_ndjson_events json (text_lines ls)

unfoldable pub parse_ndjson_range :
    {V : Type 0} → Json V → Option (List Text) → ℕ → ℕ → List V × Bool
parse_ndjson_range json none start stop = ([], false)
parse_ndjson_range json (some ls) start stop =
    (iter_ndjson_events json (text_lines (take (stop - start) (drop start ls))), ltb 0 start)

-- `write_all`, at an `os.write` that takes `accept n view` of the `view` bytes it is offered at its
-- n-th call: what has reached the file, and what is left
unfoldable pub write_all : (ℕ → ℕ → ℕ) → ℕ → ℕ → Text → Text → Text × Text
write_all accept zero n file view = (file, view)
write_all accept (suc fuel) n file [] = (file, [])
write_all accept (suc fuel) n file (c ∷ view) =
    let taken = accept n (length (c ∷ view)) in
    write_all accept fuel (suc n) (file ++ take taken (c ∷ view)) (drop taken (c ∷ view))

-- `append_ndjson`, of the JSON text of an event
unfoldable pub append_ndjson : (ℕ → ℕ → ℕ) → Text → Option Text → Text
append_ndjson accept json file =
    let line = json ++ newline ∷ [] in (write_all accept (length line) 0 (existing file) line).0
