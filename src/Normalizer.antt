-- ===== src/Normalizer.antt =====
-- internal/scraper/normalizer: the rules that make one address of the addresses of a page.
-- A text is the list of its code points. A regular expression is written out as a function. Of the standard
-- library, `unicode.ToLower`, `net.ParseIP` with `IP.String`, the parser and printer of URLs and those of
-- queries are parameters.
pub mod Paths
mod Git
mod Docs
mod Base
mod Tests
use mathlib.Core.List.{reverse}
use mathlib.Core.Option
use dev_search.Prelude.{
  ℕ, zero, ◌+◌, ◌/◌, ◌%◌, Bool, true, false, not, ◌&&◌, ◌||◌, Option, none, some, List, [], ◌∷◌,
  ◌++◌, map, leb, ◌==◌, if◌then◌else◌, drop, length,
}
use dev_search.Prelude.Text.{codes, has_prefix, contains_text}
use dev_search.Prelude.Strings.{
  same_text, one_of, split, join, is_digit, digits, is_space, trim_left, trim_right, trim_space,
  has_suffix, cut_suffix,
}
use dev_search.Normalizer.Paths.{is_slash, clean, base}

-- The fields of a `url.URL` that the rules read or write.
pub record Url : Type 0 where
  pub scheme : List ℕ
  pub user : Option (List ℕ)
  pub host : List ℕ
  pub path : List ℕ
  pub raw_query : List ℕ
  pub fragment : List ℕ

-- `u.Hostname()` and `u.Port()`. A port is what follows the last colon, if these are digits.
unfoldable pub all_digits : List ℕ → Bool
all_digits [] = true
all_digits (c ∷ cs) = is_digit c && all_digits cs

abbrev pub without_brackets : List ℕ → List ℕ
without_brackets [] = []
without_brackets (c ∷ cs) = elim (reverse cs) [
  | [] ↦ c ∷ cs
  | d ∷ ds ↦ if c == b'[' && d == b']' then reverse ds else c ∷ cs
]

unfoldable pub host_port : List (List ℕ) → List ℕ × List ℕ
host_port [] = ([], [])
host_port (whole ∷ []) = (whole, [])
host_port (last ∷ part ∷ parts) =
    if all_digits last
    then (join b':' (reverse (part ∷ parts)), last)
    else (join b':' (reverse (last ∷ part ∷ parts)), [])

unfoldable pub hostname : List ℕ → List ℕ
hostname host = without_brackets (host_port (reverse (split b':' host))).0

unfoldable pub port_of : List ℕ → List ℕ
port_of host = (host_port (reverse (split b':' host))).1

-- `fmt.Sscanf(part, "%d", &num)`: spaces, a sign, then digits, of which there is one at least; what follows
-- is not read. `none` is an error, or a number that is negative.
unfoldable pub leading_digits : List ℕ → List ℕ
leading_digits [] = []
leading_digits (c ∷ cs) = let rest = leading_digits cs in if is_digit c then c ∷ rest else []

abbrev pub some_digits : List ℕ → Option ℕ
some_digits [] = none
some_digits (c ∷ cs) = digits 0 (c ∷ cs)

abbrev pub signed : List ℕ → Option ℕ
signed [] = none
signed (c ∷ cs) =
    if c == b'+'
    then some_digits (leading_digits cs)
    else if c == b'-'
    then elim (some_digits (leading_digits cs)) [ some zero ↦ some 0 | _ ↦ none ]
    else some_digits (leading_digits (c ∷ cs))

unfoldable pub scan_number : List ℕ → Option ℕ
scan_number part = signed (trim_left is_space part)

-- The digits of a number below 256.
unfoldable pub decimal_byte : ℕ → List ℕ
decimal_byte n =
    if leb 100 n
    then (48 + n / 100) ∷ (48 + n / 10 % 10) ∷ (48 + n % 10) ∷ []
    else if leb 10 n
    then (48 + n / 10) ∷ (48 + n % 10) ∷ []
    else (48 + n) ∷ []

-- The loop of `normalizeIPv4`; `none` where it returns the host.
unfoldable pub normalize_parts : List (List ℕ) → Option (List (List ℕ))
normalize_parts [] = some []
normalize_parts (part ∷ parts) = elim (scan_number part) [
  | none ↦ none
  | some n ↦
      if leb n 255 then Option.map (λ rest. decimal_byte n ∷ rest) (normalize_parts parts) else none
]

unfoldable pub normalize_ipv4 : List ℕ → List ℕ
normalize_ipv4 host =
    let parts = split b'.' host in
    if length parts == 4
    then elim (normalize_parts parts) [ none ↦ host | some normalized ↦ join b'.' normalized ]
    else host

-- `strings.TrimPrefix`
unfoldable pub trim_prefix : List ℕ → List ℕ → List ℕ
trim_prefix s p = if has_prefix s p then drop (length p) s else s

abbrev pub trash : List (List ℕ)
trash = map codes ("utm_source" ∷ "utm_medium" ∷ "utm_campaign" ∷ "ref" ∷ "fbclid" ∷ [])

-- `q.Del` for each key of the list.
unfoldable pub delete_keys : List (List ℕ) → List (List ℕ × List ℕ) → List (List ℕ × List ℕ)
delete_keys keys [] = []
delete_keys keys ((key, value) ∷ rest) =
    let others = delete_keys keys rest in if one_of keys key then others else (key, value) ∷ others

abbrev pub is_empty : List ℕ → Bool
is_empty [] = true
is_empty (c ∷ cs) = false

unfoldable pub default_port : List ℕ → List ℕ → Bool
default_port scheme port =
    (same_text scheme (codes "http") && same_text port (codes "80"))
    || (same_text scheme (codes "https") && same_text port (codes "443"))

-- What the rules for all hosts use of the standard library. A parsed query is its keys and values in order;
-- `Encode` sorts the keys.
pub record Library : Type 0 where
  pub lower : ℕ → ℕ
  pub parse_ip : List ℕ → Option (List ℕ)
  pub parse_query : List ℕ → List (List ℕ × List ℕ)
  pub encode : List (List ℕ × List ℕ) → List ℕ
  pub parse_url : List ℕ → Option Url
  pub url_string : Url → List ℕ

module _ (lib : Library) where
  open lib use {lower, parse_ip, parse_query, encode, parse_url, url_string}

  -- The host that `BaseNormalizer` writes before the port.
  unfoldable pub normal_host : List ℕ → List ℕ
  normal_host host =
      let lowered = map lower (hostname host) in
      let host' : List ℕ = elim (parse_ip (normalize_ipv4 lowered)) [
        | none ↦ lowered
        | some ip ↦ ip
      ] in
      trim_prefix host' (codes "www.")

  -- `BaseNormalizer.Normalize`
  unfoldable pub base_normalize : Url → Url
  base_normalize u =
      let scheme = map lower u.scheme in
      let host = normal_host u.host in
      let port = port_of u.host in
      record u {
        scheme = scheme;
        host = if is_empty port || default_port scheme port then host else host ++ (b':' ∷ port);
        path = if is_empty u.path then u.path else clean u.path;
        raw_query = encode (delete_keys trash (parse_query u.raw_query));
      }

abbrev pub banned_git_paths : List (List ℕ)
banned_git_paths =
    map codes (
      "/issues" ∷ "/pulls" ∷ "/actions" ∷ "/projects" ∷ "/graphs" ∷ "/stargazers" ∷ "/network" ∷ [])

-- `for p { if strings.Contains(u.Path, p) { u.Path = "" } }`
unfoldable pub drop_banned : List (List ℕ) → List ℕ → List ℕ
drop_banned [] path = path
drop_banned (p ∷ ps) path = drop_banned ps (if contains_text path p then [] else path)

abbrev pub ascii_lower : ℕ → ℕ
ascii_lower c = if leb b'A' c && leb c b'Z' then c + 32 else c

-- `(?i)\.git/?$`, on the text reversed.
abbrev pub after_slash : List ℕ → List ℕ
after_slash [] = []
after_slash (c ∷ cs) = if c == b'/' then cs else c ∷ cs

unfoldable pub strip_git_extension : List ℕ → List ℕ
strip_git_extension path =
    let tail = after_slash (reverse path) in
    if has_prefix (map ascii_lower tail) (codes "tig.") then reverse (drop 4 tail) else path

-- `L?\d+` at the beginning of a text: what follows it.
unfoldable pub skip_digits : List ℕ → List ℕ
skip_digits [] = []
skip_digits (c ∷ cs) = let rest = skip_digits cs in if is_digit c then rest else c ∷ cs

abbrev pub skip_number : List ℕ → Option (List ℕ)
skip_number [] = none
skip_number (c ∷ cs) = if is_digit c then some (skip_digits cs) else none

unfoldable pub skip_line : List ℕ → Option (List ℕ)
skip_line [] = none
skip_line (c ∷ cs) = if c == b'L' then skip_number cs else skip_number (c ∷ cs)

abbrev pub is_end : Option (List ℕ) → Bool
is_end none = false
is_end (some rest) = is_empty rest

-- `^(L?\d+(-L?\d+)?)$`
unfoldable pub is_line_ref : List ℕ → Bool
is_line_ref fragment = elim (skip_line fragment) [
  | none ↦ false
  | some [] ↦ true
  | some (c ∷ cs) ↦ c == b'-' && is_end (skip_line cs)
]

-- `GitNormalizer.Normalize`
unfoldable pub git_normalize : Url → Url
git_normalize u = record u {
  scheme = codes "https";
  user = none;
  path = trim_right is_slash (strip_git_extension (drop_banned banned_git_paths u.path));
  fragment = if is_line_ref u.fragment then u.fragment else [];
}

-- `(?i)[a-z]`: two other characters fold to a letter.
abbrev pub is_letter : ℕ → Bool
is_letter c = (leb b'a' c && leb c b'z') || (leb b'A' c && leb c b'Z') || c == 0x17f || c == 0x212a

-- `(?i)^/[a-z]{2}-[a-z]{2}/`, replaced by a slash.
unfoldable pub strip_locale : List ℕ → List ℕ
strip_locale (s ∷ a ∷ b ∷ d ∷ e ∷ f ∷ t ∷ rest) =
    if s == b'/'
      && is_letter a
      && is_letter b
      && d == b'-'
      && is_letter e
      && is_letter f
      && t == b'/'
    then b'/' ∷ rest
    else s ∷ a ∷ b ∷ d ∷ e ∷ f ∷ t ∷ rest
strip_locale path = path

abbrev pub index_names : List (List ℕ)
index_names = map codes ("index.html" ∷ "index.htm" ∷ "index.md" ∷ [])

-- The loop over the names, left at the first one that the path ends in.
unfoldable pub strip_index : List (List ℕ) → List ℕ → List ℕ
strip_index [] path = path
strip_index (name ∷ names) path = elim (cut_suffix path name) [
  | none ↦ strip_index names path
  | some p ↦ p
]

unfoldable pub add_slash : List ℕ → List ℕ
add_slash path =
    if not (has_suffix path (codes "/")) && not (contains_text (base path) (codes "."))
    then path ++ codes "/"
    else path

-- `DocsNormalizer.Normalize`
unfoldable pub docs_normalize : (ℕ → ℕ) → Url → Url
docs_normalize lower u = record u {
  path = add_slash (strip_index index_names (map lower (strip_locale u.path)));
  raw_query = [];
}

unfoldable pub is_git_host : List ℕ → Bool
is_git_host host =
    same_text host (codes "github.com")
    || has_suffix host (codes ".github.com")
    || same_text host (codes "gitlab.com")
    || has_suffix host (codes ".gitlab.com")
    || same_text host (codes "bitbucket.org")

-- The pipeline: the rule for all hosts, then that of the host.
unfoldable pub run_rules : Library → Url → Url
run_rules lib u =
    let based = base_normalize lib u in
    if is_git_host (map lib.lower u.host)
    then git_normalize based
    else docs_normalize lib.lower based

-- `RunNormalizationPipeline`; `none` is an error of the parser.
unfoldable pub run_normalization_pipeline : Library → List ℕ → Option (List ℕ)
run_normalization_pipeline lib raw_url =
    Option.map (λ u. lib.url_string (run_rules lib u)) (lib.parse_url (trim_space raw_url))
