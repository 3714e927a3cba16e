-- ===== src/Normalizer/Paths.antt =====
-- Package path: `Clean` and `Base`, on lists of code points.
use mathlib.Core.List.{reverse}
use dev_search.Prelude.{ℕ, Bool, false, List, [], ◌∷◌, ◌==◌, if◌then◌else◌}
use dev_search.Prelude.Text.{codes}
use dev_search.Prelude.Strings.{same_text, split, join, trim_right}

-- The elements kept so far, the last one first; `..` takes one away, and stays only where there is none
-- to take and the path is not rooted.
unfoldable pub push_element : Bool → List ℕ → List (List ℕ) → List (List ℕ)
push_element rooted element kept =
    let up : List (List ℕ) = elim kept [
      | [] ↦ if rooted then [] else element ∷ []
      | last ∷ others ↦ if same_text last (codes "..") then element ∷ last ∷ others else others
    ] in
    if same_text element []
    then kept
    else if same_text element (codes ".")
    then kept
    else if same_text element (codes "..")
    then up
    else element ∷ kept

unfoldable pub clean_elements : Bool → List (List ℕ) → List (List ℕ) → List (List ℕ)
clean_elements rooted [] kept = reverse kept
clean_elements rooted (element ∷ elements) kept =
    clean_elements rooted elements (push_element rooted element kept)

abbrev pub is_rooted : List ℕ → Bool
is_rooted [] = false
is_rooted (c ∷ cs) = c == b'/'

abbrev pub or_dot : List ℕ → List ℕ
or_dot [] = codes "."
or_dot (c ∷ cs) = c ∷ cs

-- `path.Clean`
unfoldable pub clean : List ℕ → List ℕ
clean path =
    let elements = join b'/' (clean_elements (is_rooted path) (split b'/' path) []) in
    if is_rooted path then b'/' ∷ elements else or_dot elements

abbrev pub is_slash : ℕ → Bool
is_slash c = c == b'/'

-- The text after the last slash, or the whole text.
unfoldable pub last_element : List ℕ → List ℕ
last_element s = elim (reverse (split b'/' s)) [ [] ↦ [] | part ∷ parts ↦ part ]

abbrev pub base_of : List ℕ → List ℕ → List ℕ
base_of [] stripped = codes "."
base_of (c ∷ cs) stripped = elim (last_element stripped) [ [] ↦ codes "/" | d ∷ ds ↦ d ∷ ds ]

-- `path.Base`
unfoldable pub base : List ℕ → List ℕ
base path = base_of path (trim_right is_slash path)
