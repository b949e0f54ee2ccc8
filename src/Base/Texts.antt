-- ===== src/Base/Texts.antt =====
-- Python's text operations on code points: substring tests, `split`, `join` and `strip`.
use Prim.Native.Nat.{ℕ}
use mathlib.Core.Bool.{Bool, true, false, ◌&&◌, ◌||◌}
use mathlib.Core.List.{List, [], ◌∷◌, ◌++◌, reverse}
use claude_code_manager.Base.Tests.{nat_eq, if◌then◌else◌}
use claude_code_manager.Base.Lists.{Text}

-- `text.startswith(prefix)`
abbrev pub starts_with : Text → Text → Bool
starts_with [] s = true
starts_with (p ∷ ps) [] = false
starts_with (p ∷ ps) (c ∷ s) = nat_eq p c && starts_with ps s

-- `phrase in text`
abbrev pub occurs_in : Text → Text → Bool
occurs_in p [] = starts_with p []
occurs_in p (c ∷ s) = starts_with p (c ∷ s) || occurs_in p s

abbrev pub emit_word : Text → List Text → List Text
emit_word [] ws = ws
emit_word (c ∷ w) ws = (c ∷ w) ∷ ws

-- `text.split()`, with the word read so far
unfoldable pub split_from : (ℕ → Bool) → Text → Text → List Text
split_from space w [] = emit_word w []
split_from space w (c ∷ s) = elim (space c) [
  | true ↦ emit_word w (split_from space [] s)
  | false ↦ split_from space (w ++ c ∷ []) s
]

-- `" ".join(words)`
abbrev pub join_spaced : List Text → Text
join_spaced [] = []
join_spaced (w ∷ []) = w
join_spaced (w ∷ ws) = w ++ (b' ' ∷ join_spaced ws)

-- `text.lstrip(chars)` and `text.strip(chars)`, the set of characters as a test
abbrev pub lstrip : (ℕ → Bool) → Text → Text
lstrip p [] = []
lstrip p (c ∷ s) = if p c then lstrip p s else c ∷ s

abbrev pub strip : (ℕ → Bool) → Text → Text
strip p s = reverse (lstrip p (reverse (lstrip p s)))

abbrev pub is_empty {ℓ} : {A : Type ℓ} → List A → Bool
is_empty [] = true
is_empty (x ∷ xs) = false
