-- ===== src/Storage/Names.antt =====
-- The names of objects: which object a name is that of.
use Prim.Native.String.{String}
use mathlib.Core.List.{reverse, reverse-reverse, reverse-append, reverse_aux}
use dev_search.Prelude.{
  ℕ, ◌^◌, ◌+◌, subst, ◌<◌, ◌≡◌, refl, ap, ◌∙◌, Option, none, some, List, [], ◌∷◌, ◌++◌, arith,
  if◌then◌else◌, length, drop,
}
use dev_search.Prelude.Text.{codes, string_discrete, has_prefix, has_prefix-append}
use dev_search.Prelude.Strings.{digits, has_suffix, cut_suffix}
use dev_search.Prelude.Decimal.{decimal, digits-decimal, decimal-Low, Low-append, codes-text_of}
use dev_search.Storage.{ObjectKey, md_object, html_object, text_object, named, object_name}

-- `%d` between a text before and one after it.
unfoldable pub number_between : List ℕ → List ℕ → List ℕ → Option ℕ
number_between before after name =
    if has_prefix name before
    then elim (cut_suffix (drop (length before) name) after) [
      | none ↦ none
      | some inner ↦ digits 0 inner
    ]
    else none

abbrev pub or_named : Option ObjectKey → String → ObjectKey
or_named none name = named name
or_named (some key) name = elim (string_discrete (object_name key) name) [
  | yes e ↦ key
  | no ne ↦ named name
]

-- The object of a name: one of the formats, printed with no more digits than it needs, or any other.
unfoldable pub key_of_name : String → ObjectKey
key_of_name name = elim (number_between (codes "html/") (codes ".html") (codes name)) [
  | some hash ↦ or_named (some (html_object hash)) name
  | none ↦ elim (number_between (codes "md/") (codes ".md") (codes name)) [
    | some hash ↦ or_named (some (md_object hash)) name
    | none ↦ elim (number_between (codes "text/") [] (codes name)) [
      | some hash ↦ or_named (some (text_object hash)) name
      | none ↦ named name
    ]
  ]
]

drop_own : (p s : List ℕ) → drop (length p) (p ++ s) ≡ s
drop_own [] s = refl
drop_own (c ∷ p) s = drop_own p s

length-reverse_aux : (p s : List ℕ) → length (reverse_aux p s) ≡ length p + length s
length-reverse_aux [] s = omega arith
length-reverse_aux (c ∷ p) s = omega (arith, length-reverse_aux p (c ∷ s))

drop_reversed : (p s : List ℕ) → drop (length p) (reverse p ++ s) ≡ s
drop_reversed p s =
    let size : length (reverse p) ≡ length p = length-reverse_aux p [] ∙ omega arith in
    subst (λ n. drop n (reverse p ++ s) ≡ s) size (drop_own (reverse p) s)

cut_of :
    (s p t : List ℕ)
    → t ≡ reverse p ++ reverse s
    → (if has_prefix t (reverse p) then some (reverse (drop (length p) t)) else none) ≡ some s
cut_of s p t e = rw (e) (
    rw (has_prefix-append (reverse p) (reverse s), drop_reversed p (reverse s))
      (ap some (reverse-reverse s)))

cut_suffix-append : (s p : List ℕ) → cut_suffix (s ++ p) p ≡ some s
unfolding cut_suffix has_suffix
cut_suffix-append s p = cut_of s p (reverse (s ++ p)) (reverse-append s p)

pub number_between_own :
    (before after inner : List ℕ)
    → number_between before after (before ++ (inner ++ after)) ≡ digits 0 inner
unfolding number_between
number_between_own before after inner =
    rw (has_prefix-append before (inner ++ after), drop_own before (inner ++ after))
      (rw (cut_suffix-append inner after) refl)

or_named_own : (key : ObjectKey) → or_named (some key) (object_name key) ≡ key
or_named_own key = own (string_discrete (object_name key) (object_name key))
  where
    own :
        (d : Dec (object_name key ≡ object_name key))
        → (elim d [ yes e ↦ key | no ne ↦ named (object_name key) ]) ≡ key
    own (yes e) = refl
    own (no ne) = absurd (ne refl)

-- The name of a web page's object is that of this object only.
pub key_of_name-html_object :
    (hash : ℕ) → hash < 10 ^ 20 → key_of_name (object_name (html_object hash)) ≡ html_object hash
unfolding key_of_name
key_of_name-html_object hash small =
    let name : codes (object_name (html_object hash))
        ≡ codes "html/" ++ (decimal hash ++ codes ".html") =
      codes-text_of (codes "html/" ++ (decimal hash ++ codes ".html")) (
        Low-append (codes "html/") (decimal hash ++ codes ".html")
          (omega arith, (omega arith, (omega arith, (omega arith, (omega arith, tt)))))
          (Low-append (decimal hash) (codes ".html") (decimal-Low hash)
            (omega arith, (omega arith, (omega arith, (omega arith, (omega arith, tt))))))) in
    let read : number_between (codes "html/") (codes ".html")
          (codes (object_name (html_object hash)))
        ≡ some hash =
      ap (number_between (codes "html/") (codes ".html")) name
      ∙ (number_between_own (codes "html/") (codes ".html") (decimal hash)
          ∙ digits-decimal hash small) in
    rw (read, key_of_name) (or_named_own (html_object hash))
