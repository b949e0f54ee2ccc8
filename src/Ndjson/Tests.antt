-- ===== src/Ndjson/Tests.antt =====
-- Runs of the readers and writers of src/core/ndjson.py on small files.
use claude_code_manager.Base.{
  ℕ, ◌≡◌, refl, Option, none, some, List, [], ◌∷◌, reverse, if◌then◌else◌, Text, codes, nat_eq, pos,
  arith, length,
}
use claude_code_manager.Ndjson.{
  Json, split, events, iter_ndjson_events_from_end, parse_ndjson_tail_parseable, parse_ndjson_tail,
  drop_last_empty, last_n, existing, tail_window_size, count_chunk_size, parse_ndjson_line,
  iter_ndjson_events, walk_back, segment, rfind,
}
use claude_code_manager.Ndjson.FromEnd.{iter_ndjson_events_from_end-reverse}
use claude_code_manager.Ndjson.Tail.{
  parse_ndjson_tail_parseable-last, parse_ndjson_tail-page_of, page_of,
}
use claude_code_manager.Ndjson.Writing.{append_all, append_all-events}

-- A parser that takes what starts like an object.
abbrev parse : Text → Option (Option Text)
parse [] = none
parse (c ∷ s) = if nat_eq c b'{' then some (some s) else none

abbrev json : Json Text
json = record {
  loads = parse;
  loads_text = parse;
  decode = λ s. s;
  is_space = λ c. nat_eq c b' ';
  is_byte_space = λ c. nat_eq c b' ';
}

abbrev file : Text
file = codes "{one\n\n  \ntorn\n{two\n{three"

-- Windows of two bytes: lines span several of them.
from_end :
    iter_ndjson_events_from_end json 2 (some file) ≡ codes "three" ∷ codes "two" ∷ codes "one" ∷ []
unfolding iter_ndjson_events_from_end walk_back segment rfind split iter_ndjson_events
    parse_ndjson_line
from_end = refl

iter_ndjson_events_from_end-reverse_example :
    iter_ndjson_events_from_end json tail_window_size (some file)
    ≡ reverse (events json (split file))
iter_ndjson_events_from_end-reverse_example =
    iter_ndjson_events_from_end-reverse json tail_window_size file (omega arith)

parse_ndjson_tail_parseable-last_example :
    parse_ndjson_tail_parseable json 3 (some file) (pos 2) ≡ last_n 2 (events json (split file))
parse_ndjson_tail_parseable-last_example =
    parse_ndjson_tail_parseable-last json 3 file 2 (omega arith)

parse_ndjson_tail-page_of_example :
    parse_ndjson_tail json 9 count_chunk_size (some file) 2
    ≡ page_of json file 2 (length (drop_last_empty (split file)))
parse_ndjson_tail-page_of_example =
    parse_ndjson_tail-page_of json 9 count_chunk_size file 2 (omega arith)

-- A system that takes one byte at a time.
abbrev one_byte : ℕ → ℕ → ℕ
one_byte n k = 1

abbrev texts : List Text
texts = codes "{a" ∷ codes "{b" ∷ []

append_all-events_example :
    events json (split (existing (append_all one_byte texts none))) ≡ events json texts
append_all-events_example =
    append_all-events json one_byte texts (λ n k h. omega arith) (refl, (refl, tt))
