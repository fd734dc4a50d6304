-- ===== src/Base/Text.antt =====
-- Python's text operations on lists of code points.
use mathlib.Core.List.{reverse}
use Prim.Native.Char.{code}
use Prim.Native.String.{String}
use flight_pricing.Base.{
  ℕ, ◌-◌, ◌≡◌, ◌↔◌, refl, Bool, true, false, ◌&&◌, ◌||◌, List, [], ◌∷◌, ◌++◌, map, leb, ◌==◌,
  if◌then◌else◌, length, arith,
}

abbrev pub Text : Type 0
Text = List ℕ

-- The code points for which `str.isspace` holds, at which `split` and `strip` cut.
abbrev pub is_space : ℕ → Bool
is_space c =
    (leb 9 c && leb c 13)
    || (leb 28 c && leb c 32)
    || c == 133
    || c == 160
    || c == 5760
    || (leb 8192 c && leb c 8202)
    || c == 8232
    || c == 8233
    || c == 8239
    || c == 8287
    || c == 12288

pub lstrip : Text → Text
lstrip [] = []
lstrip (c ∷ t) = let rest = lstrip t in if is_space c then rest else c ∷ t

-- `t.strip()`
unfoldable pub strip : Text → Text
unfolding lstrip
strip t = reverse (lstrip (reverse (lstrip t)))

-- `t.split()`, with the word that is being read.
words_from : Text → Text → List Text
words_from word [] = if leb (length word) 0 then [] else reverse word ∷ []
words_from word (c ∷ t) =
    let more = words_from (c ∷ word) t in
    let cut = words_from [] t in
    if is_space c then (if leb (length word) 0 then cut else reverse word ∷ cut) else more

unfoldable pub split : Text → List Text
unfolding words_from
split = words_from []

-- `" ".join(words)`
unfoldable pub unwords : List Text → Text
unwords [] = []
unwords (w ∷ []) = w
unwords (w ∷ v ∷ ws) = w ++ (32 ∷ unwords (v ∷ ws))

-- The code points of a literal. `String` has its own `[]` and `∷`.
abbrev pub codes : String → Text
codes String.[] = []
codes (String.◌∷◌ c s) = code c ∷ codes s

-- Equality of texts, `==`.
abbrev pub text_eq : Text → Text → Bool
text_eq [] [] = true
text_eq [] (d ∷ u) = false
text_eq (c ∷ t) [] = false
text_eq (c ∷ t) (d ∷ u) = c == d && text_eq t u

pub text_eq_iff : (t u : Text) → (text_eq t u ≡ true) ↔ (t ≡ u)
text_eq_iff [] [] = ((λ h. refl), (λ h. refl))
text_eq_iff [] (d ∷ u) = ((λ h. cc), (λ h. cc))
text_eq_iff (c ∷ t) [] = ((λ h. cc), (λ h. cc))
text_eq_iff (c ∷ t) (d ∷ u) =
    let ih = text_eq_iff t u in ((λ h. ground (arith, ih.0)), (λ h. ground (arith, ih.1)))

pub text_eq_refl : (t : Text) → text_eq t t ≡ true
text_eq_refl t = (text_eq_iff t t).1 refl

-- `str.upper` and `str.lower`, on ASCII letters.
abbrev pub upper_letter : ℕ → ℕ
upper_letter c = if leb 97 c && leb c 122 then c - 32 else c

unfoldable pub upper : Text → Text
upper = map upper_letter
