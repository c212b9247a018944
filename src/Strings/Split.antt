-- ===== src/Strings/Split.antt =====
-- Taking apart what was put together with a separator.
use planet.Base.{ℕ, ◌≡◌, refl, ap, ◌∙◌, ◌≢◌, false, some, List, [], ◌∷◌, ◌++◌, arith, Text, All}
use planet.Strings.{cut, pieces, split, join, is_space, flush, words, fields}

abbrev pub Lacks : ℕ → Text → Type 0
Lacks b = All (λ c. c ≢ b)

pub cut-append : (sep : ℕ) (a b : Text) → Lacks sep a → cut sep (a ++ sep ∷ b) ≡ some (a, b)
unfolding cut
cut-append sep [] b h = ground arith
cut-append sep (c ∷ a) b h = ground (arith, cut-append sep a b h.1)

pub pieces-Lacks : (sep : ℕ) (a : Text) → Lacks sep a → pieces sep a ≡ (a, [])
unfolding pieces
pieces-Lacks sep [] h = refl
pieces-Lacks sep (c ∷ a) h = ground (arith, pieces-Lacks sep a h.1)

pub pieces-append :
    (sep : ℕ) (a b : Text) → Lacks sep a → pieces sep (a ++ sep ∷ b) ≡ (a, split sep b)
unfolding pieces
pieces-append sep [] b h = ground arith
pieces-append sep (c ∷ a) b h = ground (arith, pieces-append sep a b h.1)

-- `Split` undoes `Join` on pieces that lack the separator.
pub split-join :
    (sep : ℕ) (w : Text) (ws : List Text)
    → Lacks sep w
    → All (Lacks sep) ws
    → split sep (join (sep ∷ []) (w ∷ ws)) ≡ w ∷ ws
unfolding join
split-join sep w [] h hs = rw (pieces-Lacks sep w h)
split-join sep w (x ∷ xs) h hs =
    ground (arith, pieces-append sep w (join (sep ∷ []) (x ∷ xs)) h, split-join sep x xs hs.0 hs.1)

-- A word of a line: it is not empty and holds no space.
abbrev pub IsWord : Text → Type 0
IsWord w = (w ≢ []) × All (λ c. is_space c ≡ false) w

pub words-append :
    (a b : Text) → All (λ c. is_space c ≡ false) a → words (a ++ 32 ∷ b) ≡ (a, fields b)
unfolding words is_space
words-append [] b h = refl
words-append (c ∷ a) b h = ground (arith, words-append a b h.1)

pub words_of_word : (a : Text) → All (λ c. is_space c ≡ false) a → words a ≡ (a, [])
unfolding words
words_of_word [] h = refl
words_of_word (c ∷ a) h = ground (arith, words_of_word a h.1)

flush-ne : (w : Text) (ws : List Text) → w ≢ [] → flush w ws ≡ w ∷ ws
flush-ne [] ws h = absurd (h refl)
flush-ne (c ∷ w) ws h = refl

-- `Fields` reads a word, and then what follows one space.
pub fields-cons : (w b : Text) → IsWord w → fields (w ++ 32 ∷ b) ≡ w ∷ fields b
fields-cons w b h = rw (words-append w b h.1) (flush-ne w (fields b) h.0)

pub fields_of_word : (w : Text) → IsWord w → fields w ≡ w ∷ []
fields_of_word w h = rw (words_of_word w h.1) (flush-ne w [] h.0)

-- `Fields` undoes `Join` by a space on words.
pub fields-join : (ws : List Text) → All IsWord ws → fields (join (32 ∷ []) ws) ≡ ws
unfolding join words
fields-join [] h = refl
fields-join (w ∷ []) h = fields_of_word w h.0
fields-join (w ∷ x ∷ xs) h =
    fields-cons w (join (32 ∷ []) (x ∷ xs)) h.0 ∙ ap (λ r. w ∷ r) (fields-join (x ∷ xs) h.1)
