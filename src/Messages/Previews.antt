-- ===== src/Messages/Previews.antt =====
-- src/core/message_aggregator.py: the bound on what a message shows of its tools.
use claude_code_manager.Base.{
  ◌≡◌, refl, false, List, [], ◌∷◌, Text, Bool-cases, inl, inr, length-take_le, le→ltb_false,
}
use claude_code_manager.Messages.Events.{
  Tool, ToolInput, fields, no_dict, Value, text, opaque, tool_preview, tool_preview_chars, trims,
  trim, trim_all, any_trims, input_trims, trim_input,
}

abbrev pub IsShort : Value → Type 0
IsShort v = trims v ≡ false

abbrev pub IsShortInput : ToolInput → Type 0
IsShortInput i = input_trims i ≡ false

-- No text of the row is longer than the preview.
abbrev pub IsBounded : Tool → Type 0
IsBounded t = IsShort t.output × IsShortInput t.input

trim-IsShort : (v : Value) → IsShort (trim v)
trim-IsShort (text s) = elim (Bool-cases (trims (text s))) [
  | inl h ↦ rw h (le→ltb_false tool_preview_chars _ (length-take_le tool_preview_chars s))
  | inr h ↦ rw h h
]
trim-IsShort (opaque v) = refl

trim_all-IsShort : (kvs : List (Text × Value)) → any_trims (trim_all kvs) ≡ false
trim_all-IsShort [] = refl
trim_all-IsShort ((key, value) ∷ kvs) = rw (trim-IsShort value) (trim_all-IsShort kvs)

trim_input-IsShort : (i : ToolInput) → IsShortInput (trim_input i)
trim_input-IsShort (fields kvs) = trim_all-IsShort kvs
trim_input-IsShort (no_dict v) = refl

pub tool_preview-IsBounded : (t : Tool) → IsBounded (tool_preview t)
unfolding tool_preview
tool_preview-IsBounded t = (
  trim-IsShort t.output,
  elim (Bool-cases (input_trims t.input)) [
    | inl h ↦ rw h (trim_input-IsShort t.input)
    | inr h ↦ rw h h
  ],
)
