-- ===== src/Go/Text.antt =====
-- The parts of Go's `strings` that the SDK uses. A text is its code points: the SDK's texts are
-- UTF-8, and a prefix, a suffix, an infix and the order of UTF-8 are those of the code points.
use Prim.Native.Char.{code}
use Prim.Native.String.{compare}
use Prim.Native.Nat.{Ordering}
use ff_golang_server_sdk.Common.{
  ℕ, ◌+◌, String, ◌≡◌, refl, Bool, true, false, ◌&&◌, ◌||◌, List, [], ◌∷◌, map, ltb, leb, eqb,
  if◌then◌else◌,
}
use ff_golang_server_sdk.Go.{Runtime}

abbrev pub codes : String → List ℕ
codes String.[] = []
codes (String.◌∷◌ c s) = code c ∷ codes s

unfoldable pub same_codes : List ℕ → List ℕ → Bool
same_codes [] [] = true
same_codes [] (y ∷ ys) = false
same_codes (x ∷ xs) [] = false
same_codes (x ∷ xs) (y ∷ ys) = eqb x y && same_codes xs ys

prefix_codes : List ℕ → List ℕ → Bool
prefix_codes xs [] = true
prefix_codes [] (p ∷ ps) = false
prefix_codes (x ∷ xs) (p ∷ ps) = eqb x p && prefix_codes xs ps

suffix_codes : List ℕ → List ℕ → Bool
unfolding same_codes
suffix_codes [] ps = same_codes [] ps
suffix_codes (x ∷ xs) ps = same_codes (x ∷ xs) ps || suffix_codes xs ps

infix_codes : List ℕ → List ℕ → Bool
unfolding prefix_codes
infix_codes [] ps = prefix_codes [] ps
infix_codes (x ∷ xs) ps = prefix_codes (x ∷ xs) ps || infix_codes xs ps

-- `strings.HasPrefix(s, prefix)`, `strings.HasSuffix(s, suffix)`, `strings.Contains(s, substr)`
unfoldable pub has_prefix : String → String → Bool
unfolding prefix_codes
has_prefix s p = prefix_codes (codes s) (codes p)

unfoldable pub has_suffix : String → String → Bool
unfolding suffix_codes
has_suffix s p = suffix_codes (codes s) (codes p)

unfoldable pub contains_text : String → String → Bool
unfolding infix_codes
contains_text s p = infix_codes (codes s) (codes p)

-- `s > t` on texts
unfoldable pub gt_text : String → String → Bool
gt_text s t = elim (compare s t) [ Ordering.gt ↦ true | _ ↦ false ]

-- `xs > ys` on texts that are given by their code points
unfoldable pub gt_codes : List ℕ → List ℕ → Bool
gt_codes [] ys = false
gt_codes (x ∷ xs) [] = true
gt_codes (x ∷ xs) (y ∷ ys) = ltb y x || (eqb x y && gt_codes xs ys)

abbrev ascii_lower : ℕ → ℕ
ascii_lower c = if leb 65 c && leb c 90 then c + 32 else c

module _ (rt : Runtime) where
  abbrev lower_rune : ℕ → ℕ
  lower_rune c = if ltb c 128 then ascii_lower c else rt.unicode_to_lower c

  -- `strings.ToLower(s)`, as code points
  unfoldable pub to_lower : String → List ℕ
  to_lower s = map lower_rune (codes s)

  abbrev fold_rune : ℕ → ℕ → Bool
  fold_rune a b =
      eqb a b
      || (if ltb a 128 && ltb b 128
          then eqb (ascii_lower a) (ascii_lower b)
          else rt.unicode_same_fold a b)

  fold_codes : List ℕ → List ℕ → Bool
  fold_codes [] [] = true
  fold_codes [] (y ∷ ys) = false
  fold_codes (x ∷ xs) [] = false
  fold_codes (x ∷ xs) (y ∷ ys) = fold_rune x y && fold_codes xs ys

  -- `strings.EqualFold(s, t)`
  unfoldable pub equal_fold : String → String → Bool
  unfolding fold_codes
  equal_fold s t = fold_codes (codes s) (codes t)

  -- `strings.ToLower(s) == t`
  unfoldable pub lower_is : String → String → Bool
  unfolding to_lower same_codes
  lower_is s t = same_codes (to_lower s) (codes t)

  fold_test : equal_fold "HaRnEsS" "harness" ≡ true
  unfolding equal_fold
  fold_test = refl

  lower_test : lower_is "Identifier" "identifier" ≡ true
  unfolding lower_is
  lower_test = refl

suffix_test : has_suffix "wings@harness.io" "harness.io" ≡ true
unfolding has_suffix
suffix_test = refl

infix_test : contains_text "wings@harness.io" "harness.com" ≡ false
unfolding contains_text
infix_test = refl
