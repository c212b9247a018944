-- ===== src/Users/Writing.antt =====
-- `WriteTo`: an error is not lost, and without one the whole file is written.
use planet.Base.{
  ℕ, ◌+◌, ◌≡◌, refl, ◌⊎◌, inl, inr, Option, none, some, List, [], ◌∷◌, ◌++◌, append_assoc,
  append-nil, arith, Text, codes, length, length-append,
}
use planet.Trace.{Error}
use planet.Os.{Fault}
use planet.Users.{write_line, LineBuffer, write_lines, write_to}

pub Option-cases : (o : Option Error) → (o ≡ none) ⊎ ((e : Error) × (o ≡ some e))
Option-cases none = inl refl
Option-cases (some e) = inr (e, refl)

-- The lines as the file holds them.
unfoldable pub lines_text : List Text → Text
lines_text [] = []
lines_text (l ∷ ls) = (l ++ codes "\n") ++ lines_text ls

write_line_failed :
    (l : Text) (b : LineBuffer) (e : Error) → b.error ≡ some e → write_line l b ≡ (0, b)
unfolding write_line
write_line_failed l b e h = rw h

pub write_lines_failed :
    (n : ℕ) (lines : List Text) (b : LineBuffer) (e : Error)
    → b.error ≡ some e
    → write_lines n lines b ≡ (n, b)
unfolding write_lines
write_lines_failed n [] b e h = refl
write_lines_failed n (l ∷ ls) b e h =
    grind (arith, write_line_failed l b e h, write_lines_failed n ls b e h)

-- A line whose write fails leaves an error.
write_line_ok :
    (l : Text) (b : LineBuffer)
    → b.error ≡ none
    → ((write_line l b).1.error ≡ none)
    → ((write_line l b).1.text ≡ b.text ++ (l ++ codes "\n"))
      × ((write_line l b).0 ≡ length (l ++ codes "\n"))
unfolding write_line
write_line_ok l b h e = ground arith

pub write_lines_done :
    (n : ℕ) (lines : List Text) (b : LineBuffer)
    → b.error ≡ none
    → (write_lines n lines b).1.error ≡ none
    → ((write_lines n lines b).1.text ≡ b.text ++ lines_text lines)
      × ((write_lines n lines b).0 ≡ n + length (lines_text lines))
unfolding write_lines lines_text
write_lines_done n [] b h e = (rw append-nil, omega arith)
write_lines_done n (l ∷ ls) b h e = elim (Option-cases (write_line l b).1.error) [
  | inl q ↦
      let line = write_line_ok l b h q in
      let rest = write_lines_done (n + (write_line l b).0) ls (write_line l b).1 q e in
      (
        grind (arith, line, rest, append_assoc b.text (l ++ codes "\n") (lines_text ls)),
        grind (arith, line, rest, length-append (l ++ codes "\n") (lines_text ls)),
      )
  | inr (x, q) ↦
      absurd
        (grind (arith, write_lines_failed (n + (write_line l b).0) ls (write_line l b).1 x q, e))
]

-- Where `WriteTo` reports no error, it has written every line, and its count is the length of the
-- text, whatever faults the writer was given.
write_to_done :
    (lines : List Text) (faults : List (Option Fault))
    → (write_to lines faults).1 ≡ none
    → ((write_to lines faults).2 ≡ lines_text lines)
      × ((write_to lines faults).0 ≡ length (lines_text lines))
unfolding write_to
write_to_done lines faults h =
    let b : LineBuffer = record { text = []; error = none; faults = faults } in
    elim (Option-cases (write_lines 0 lines b).1.error) [
      | inl q ↦ ground (arith, q, write_lines_done 0 lines b refl q)
      | inr (e, q) ↦ absurd (ground (arith, q, h))
    ]
