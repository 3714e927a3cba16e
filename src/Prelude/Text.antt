-- ===== src/Prelude/Text.antt =====
-- Texts as lists of code points, with the searches of package strings that the program uses.
use Prim.Native.Char.{code}
use Prim.Native.String.{String}
use mathlib.Core.Bool.{false≢true}
use text.Mathlib.Text.{◌==◌ as text_equal}
use text.Mathlib.TextEquality.{eq_iff}
use dev_search.Prelude.{
  ℕ, ◌≡◌, refl, ap, ◌↔◌, inl, inr, Bool, true, false, ◌&&◌, ◌||◌, List, [], ◌∷◌, ◌++◌, arith, ◌==◌,
  Bool-cases,
}

abbrev pub codes : String → List ℕ
codes String.[] = []
codes (String.◌∷◌ c s) = code c ∷ codes s

-- `strings.HasPrefix`
unfoldable pub has_prefix : List ℕ → List ℕ → Bool
has_prefix s [] = true
has_prefix [] (p ∷ ps) = false
has_prefix (c ∷ cs) (p ∷ ps) = c == p && has_prefix cs ps

-- `strings.Contains`
unfoldable pub contains_text : List ℕ → List ℕ → Bool
contains_text [] p = has_prefix [] p
contains_text (c ∷ cs) p = has_prefix (c ∷ cs) p || contains_text cs p

-- The text p stands somewhere in s.
abbrev pub Infix : List ℕ → List ℕ → Type 0
Infix p s = (before : List ℕ) × (after : List ℕ) × (s ≡ before ++ (p ++ after))

pub has_prefix_sound : (s p : List ℕ) → has_prefix s p ≡ true → (after : List ℕ) × (s ≡ p ++ after)
unfolding has_prefix
has_prefix_sound s [] h = (s, refl)
has_prefix_sound [] (p ∷ ps) h = cc
has_prefix_sound (c ∷ cs) (p ∷ ps) h =
    let (after, e) = has_prefix_sound cs ps (ground arith) in (after, ground arith)

pub has_prefix-append : (p after : List ℕ) → has_prefix (p ++ after) p ≡ true
unfolding has_prefix
has_prefix-append [] after = refl
has_prefix-append (c ∷ p) after = ground (arith, has_prefix-append p after)

contains_text_sound : (s p : List ℕ) → contains_text s p ≡ true → Infix p s
unfolding contains_text
contains_text_sound [] p h = let (after, e) = has_prefix_sound [] p h in ([], after, e)
contains_text_sound (c ∷ cs) p h = elim (Bool-cases (has_prefix (c ∷ cs) p)) [
  | inl here ↦ let (after, e) = has_prefix_sound (c ∷ cs) p here in ([], after, e)
  | inr not_here ↦
      let (before, after, e) = contains_text_sound cs p (ground arith) in
      (c ∷ before, after, ap (λ t. c ∷ t) e)
]

contains_text-prefix : (s p : List ℕ) → has_prefix s p ≡ true → contains_text s p ≡ true
unfolding contains_text
contains_text-prefix [] p h = h
contains_text-prefix (c ∷ cs) p h = rw h

contains_text_complete : (before p after : List ℕ) → contains_text (before ++ (p ++ after)) p ≡ true
unfolding contains_text
contains_text_complete [] p after = contains_text-prefix (p ++ after) p (has_prefix-append p after)
contains_text_complete (c ∷ before) p after = ground (arith, contains_text_complete before p after)

-- `Contains` finds every occurrence, and nothing else.
pub contains_text_iff : (s p : List ℕ) → (contains_text s p ≡ true) ↔ Infix p s
contains_text_iff s p =
    (contains_text_sound s p, λ (before, after, e). rw e (contains_text_complete before p after))

abbrev pub decide_text : (s t : String) (b : Bool) → (b ≡ true) ↔ (s ≡ t) → Dec (s ≡ t)
decide_text s t true h = yes (h.0 refl)
decide_text s t false h = no (λ e. false≢true (h.1 e))

abbrev pub string_discrete : Discrete String
string_discrete s t = decide_text s t (text_equal s t) (eq_iff s t)
