-- ===== src/Plans/Paths.antt =====
-- `posixpath.normpath`, which src/core/plans.py compares file bindings by.
use claude_code_manager.Base.{
  ◌≡◌, refl, Bool, true, false, not, ◌&&◌, ◌||◌, List, [], ◌∷◌, ◌++◌, reverse, Text, Text_eq, ◌==◌,
  codes, starts_with, is_empty, nat_eq, if◌then◌else◌,
}

-- `path.split("/")`, with the component read so far
unfoldable pub split_slash : Text → Text → List Text
split_slash w [] = w ∷ []
split_slash w (c ∷ s) = elim (nat_eq c b'/') [
  | true ↦ w ∷ split_slash [] s
  | false ↦ split_slash (w ++ c ∷ []) s
]

abbrev pub join_slash : List Text → Text
join_slash [] = []
join_slash (w ∷ []) = w
join_slash (w ∷ ws) = w ++ (b'/' ∷ join_slash ws)

-- One component of the loop, over the components kept so far, newest first.
unfoldable pub keep_component : Bool → List Text → Text → List Text
keep_component rooted kept comp = if is_empty comp || (comp == codes ".") then kept else elim kept [
  | [] ↦ if not (comp == codes "..") || not rooted then comp ∷ [] else []
  | top ∷ rest ↦ if not (comp == codes "..") || (top == codes "..") then comp ∷ top ∷ rest else rest
]

unfoldable pub keep_components : Bool → List Text → List Text → List Text
keep_components rooted kept [] = reverse kept
keep_components rooted kept (c ∷ cs) = keep_components rooted (keep_component rooted kept c) cs

-- Two leading slashes stay two; one, or three and more, become one.
unfoldable pub initial_slashes : Text → Text
initial_slashes p =
    if starts_with (codes "//") p && not (starts_with (codes "///") p)
    then codes "//"
    else if starts_with (codes "/") p
    then codes "/"
    else []

unfoldable pub or_dot : Text → Text
or_dot [] = codes "."
or_dot (c ∷ s) = c ∷ s

unfoldable pub normpath : Text → Text
unfolding split_slash keep_components keep_component initial_slashes or_dot
normpath p = or_dot (
    initial_slashes p
    ++ join_slash (keep_components (not (is_empty (initial_slashes p))) [] (split_slash [] p)))

normpath_examples :
    (normpath (codes "./artifacts//c.html") ≡ codes "artifacts/c.html")
    × (normpath (codes "a/../../b/.") ≡ codes "../b")
    × (normpath (codes "///x/../..") ≡ codes "/")
    × (normpath [] ≡ codes ".")
unfolding normpath
normpath_examples = (refl, refl, refl, refl)
