-- ===== src/Normalizer/Tests.antt =====
-- Runs of the rules, and the theorems at concrete inputs.
use Prim.Native.String.{String}
use dev_search.Prelude.{ℕ, ◌≡◌, ◌≢◌, ◌⊎◌, refl, true, none, List, [], ◌∷◌, ◌++◌, map, arith}
use dev_search.Prelude.Text.{codes, contains_text, has_prefix}
use dev_search.Prelude.Strings.{
  same_text, one_of, split, join, is_digit, trim_left, trim_right, has_suffix, cut_suffix,
}
use dev_search.Normalizer.Paths.{push_element, clean_elements, clean, last_element, base}
use dev_search.Normalizer.{
  Url, Library, delete_keys, normal_host, base_normalize, drop_banned, banned_git_paths,
  strip_git_extension, is_line_ref, git_normalize, strip_locale, strip_index, add_slash,
  docs_normalize, all_digits, host_port, hostname, port_of, normalize_ipv4, trim_prefix,
  default_port, is_git_host, run_rules, ascii_lower,
}
use dev_search.Normalizer.Git.{NoneIn, git_normalize_lem}
use dev_search.Normalizer.Docs.{HasEnd, docs_normalize_lem}

abbrev address : String → String → String → Url
address host path fragment = record {
  scheme = codes "HTTPS";
  user = none;
  host = codes host;
  path = codes path;
  raw_query = [];
  fragment = codes fragment;
}

-- A library whose addresses have one parameter of each kind.
abbrev lib : Library
lib = record {
  lower = ascii_lower;
  parse_ip = λ s. none;
  parse_query = λ s. (codes "ref", codes "x") ∷ (codes "page", codes "2") ∷ [];
  encode = λ q. elim q [ [] ↦ [] | (key, value) ∷ rest ↦ key ++ (b'=' ∷ value) ];
  parse_url = λ s. none;
  url_string = λ u. u.path;
}

abbrev repo : Url
repo = address "www.GitHub.com:443" "/Go//x/./tools.git/" "L10-L20"

-- With its port the host is none of the Git hosts.
normal_repo : run_rules lib repo ≡ record {
  scheme = codes "https";
  user = none;
  host = codes "github.com";
  path = codes "/go/x/tools.git";
  raw_query = [];
  fragment = codes "L10-L20";
}
unfolding run_rules base_normalize normal_host docs_normalize is_git_host same_text has_suffix
    has_prefix hostname port_of host_port all_digits is_digit split join normalize_ipv4 trim_prefix
    default_port clean clean_elements push_element strip_locale strip_index cut_suffix add_slash
    contains_text base last_element trim_right trim_left delete_keys one_of
normal_repo = refl

git_repo :
    (git_normalize (address "github.com" "/golang/tools.GIT/" "readme")).path
    ≡ codes "/golang/tools"
unfolding git_normalize drop_banned contains_text has_prefix strip_git_extension trim_right
    trim_left
git_repo = refl

git_normalize_lem_example :
    ((git_normalize repo).scheme ≡ codes "https")
    × ((git_normalize repo).user ≡ none)
    × NoneIn banned_git_paths (git_normalize repo).path
    × ((before : List ℕ) → (git_normalize repo).path ≢ before ++ b'/' ∷ [])
    × (((git_normalize repo).fragment ≡ []) ⊎ (is_line_ref (git_normalize repo).fragment ≡ true))
git_normalize_lem_example = git_normalize_lem repo

ascii_lower_twice : (c : ℕ) → ascii_lower (ascii_lower c) ≡ ascii_lower c
ascii_lower_twice c = ground arith

docs_normalize_lem_example :
    ((docs_normalize ascii_lower repo).raw_query ≡ [])
    × (map ascii_lower (docs_normalize ascii_lower repo).path
        ≡ (docs_normalize ascii_lower repo).path)
    × HasEnd (docs_normalize ascii_lower repo).path
docs_normalize_lem_example = docs_normalize_lem ascii_lower ascii_lower_twice repo refl
