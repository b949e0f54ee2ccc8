-- ===== src/Messages/Uploads.antt =====
-- src/core/message_events.py: the content and the files of a user event.
--
-- `splitlines` and `strip` are Python's, over code points. A stored file is the dict that the event
-- has. A file that is neither a dict nor a text raises in the source and is not modelled.
use claude_code_manager.Base.{
  ℕ, Bool, true, false, not, ◌&&◌, ◌||◌, Option, none, some, List, [], ◌∷◌, ◌++◌, reverse,
  if◌then◌else◌, nat_eq, leb, is_empty, any, Text, codes, length, drop, starts_with, occurs_in,
  strip, lstrip, map,
}

-- What an event lists, and what a message shows.
pub data Upload : Type 0 where
  stored : ℕ → Upload
  bare : Text → Upload

pub data FileRef : Type 0 where
  dict_ref : ℕ → FileRef
  file_ref : Text → Text → FileRef

abbrev pub attached_files_marker : Text
attached_files_marker = codes "\n\n[Attached files]\n"

abbrev between : ℕ → ℕ → ℕ → Bool
between lo hi c = leb lo c && leb c hi

abbrev pub is_line_break : ℕ → Bool
is_line_break c = between 10 13 c || between 28 30 c || any (nat_eq c) (0x85 ∷ 0x2028 ∷ 0x2029 ∷ [])

abbrev pub is_white : ℕ → Bool
is_white c =
    between 9 13 c
    || between 28 32 c
    || between 0x2000 0x200a c
    || any (nat_eq c) (0x85 ∷ 0xa0 ∷ 0x1680 ∷ 0x2028 ∷ 0x2029 ∷ 0x202f ∷ 0x205f ∷ 0x3000 ∷ [])

-- `text.splitlines()` with the line read so far, and whether a carriage return was just read
unfoldable pub splitlines_from : Bool → Text → Text → List Text
splitlines_from cr w [] = if is_empty w then [] else w ∷ []
splitlines_from cr w (c ∷ s) = elim (cr && nat_eq c 10) [
  | true ↦ splitlines_from false w s
  | false ↦ elim (is_line_break c) [
    | true ↦ w ∷ splitlines_from (nat_eq c 13) [] s
    | false ↦ splitlines_from false (w ++ c ∷ []) s
  ]
]

abbrev pub cons_body : ℕ → Text × Text → Text × Text
cons_body c (body, block) = (c ∷ body, block)

-- `text.rpartition(marker)`, where the marker occurs
unfoldable pub rpartition : Text → Text → Option (Text × Text)
rpartition sep [] = if is_empty sep then some ([], []) else none
rpartition sep (c ∷ s) = elim (rpartition sep s) [
  | some parts ↦ some (cons_body c parts)
  | none ↦ if starts_with sep (c ∷ s) then some ([], drop (length sep) (c ∷ s)) else none
]

abbrev forward : ℕ → ℕ
forward c = if nat_eq c b'\\' then b'/' else c

abbrev rstrip : (ℕ → Bool) → Text → Text
rstrip p s = reverse (lstrip p (reverse s))

-- `text.split("/")[-1]`
abbrev pub last_segment : Text → Text → Text
last_segment w [] = w
last_segment w (c ∷ s) = if nat_eq c b'/' then last_segment [] s else last_segment (w ++ c ∷ []) s

abbrev or_else : Text → Text → Text
or_else [] b = b
or_else (c ∷ a) b = c ∷ a

unfoldable pub filename_from_path : Text → Text
filename_from_path path = or_else (last_segment [] (rstrip (nat_eq b'/') (map forward path))) path

abbrev pub serialize_uploaded_file : Upload → FileRef
serialize_uploaded_file (stored u) = dict_ref u
serialize_uploaded_file (bare path) = file_ref (filename_from_path path) path

abbrev pub serialize_uploaded_files : List Upload → List FileRef
serialize_uploaded_files [] = []
serialize_uploaded_files (u ∷ us) = serialize_uploaded_file u ∷ serialize_uploaded_files us

-- The path that a line of the footer names.
abbrev pub footer_path : Text → Option Text
footer_path line =
    let path = strip is_white (drop 2 line) in
    if starts_with (codes "- ") line && not (is_empty path) then some path else none

-- All the files of a footer, or nothing where one line is no file.
abbrev pub footer_files : List Text → Option (List FileRef)
footer_files [] = some []
footer_files (line ∷ lines) = elim (footer_path line) [
  | none ↦ none
  | some path ↦ elim (footer_files lines) [
    | none ↦ none
    | some files ↦ some (file_ref (filename_from_path path) path ∷ files)
  ]
]

abbrev pub strip_footer : Text → Option (Text × Text) → Text × List FileRef
strip_footer content none = (content, [])
strip_footer content (some (body, block)) = elim (footer_files (splitlines_from false [] block)) [
  | none ↦ (content, [])
  | some files ↦ (body, files)
]

unfoldable pub strip_attached_files_block : Text → Text × List FileRef
strip_attached_files_block content =
    if occurs_in attached_files_marker content
    then strip_footer content (rpartition attached_files_marker content)
    else (content, [])

unfoldable pub normalize_user_message_event : Text → List Upload → Text × List FileRef
normalize_user_message_event content [] = strip_attached_files_block content
normalize_user_message_event content (u ∷ us) = (content, serialize_uploaded_files (u ∷ us))
