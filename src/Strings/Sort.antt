-- ===== src/Strings/Sort.antt =====
-- `sort.Strings`: strings by their bytes.
use planet.Base.{Bool, true, false, List, [], ◌∷◌, ltb, ◌==◌, if◌then◌else◌, Text}

-- `a <= b` on strings.
unfoldable pub text_leb : Text → Text → Bool
text_leb [] b = true
text_leb (x ∷ a) [] = false
text_leb (x ∷ a) (y ∷ b) = let rest = text_leb a b in if x == y then rest else ltb x y

unfoldable pub insert : Text → List Text → List Text
insert a [] = a ∷ []
insert a (b ∷ bs) = let rest = insert a bs in if text_leb a b then a ∷ b ∷ bs else b ∷ rest

unfoldable pub sort_texts : List Text → List Text
unfolding insert
sort_texts [] = []
sort_texts (a ∷ as') = insert a (sort_texts as')
