-- ===== src/Strings/Lines.antt =====
-- A scanner yields the lines that were written.
use planet.Base.{◌<◌, ◌≡◌, refl, ap, false, List, [], ◌∷◌, ◌++◌, arith, Text, length}
use planet.Strings.{split, drop_cr, drop_last_empty, clip, max_token, scan_lines}
use planet.Strings.Split.{Lacks, pieces-append}

-- A text that stands on one line, as a scanner reads it back.
pub record IsLine (l : Text) : Type 0 where
  pub no_newline : Lacks 10 l
  pub no_return : Lacks 13 l
  pub fits : length l < max_token

drop_cr-Lacks : (l : Text) → Lacks 13 l → drop_cr l ≡ l
unfolding drop_cr
drop_cr-Lacks [] h = refl
drop_cr-Lacks (c ∷ []) h = ground arith
drop_cr-Lacks (c ∷ d ∷ r) h = ap (λ t. c ∷ t) (drop_cr-Lacks (d ∷ r) h.1)

clip-cons : (l : Text) (ls : List Text) → IsLine l → clip (l ∷ ls) ≡ (l ∷ (clip ls).0, (clip ls).1)
unfolding clip
clip-cons l ls h = ground (arith, drop_cr-Lacks l h.no_return)

pub scan_lines-cons :
    (l rest : Text)
    → IsLine l
    → scan_lines (l ++ 10 ∷ rest) ≡ (l ∷ (scan_lines rest).0, (scan_lines rest).1)
unfolding scan_lines
scan_lines-cons l rest h =
    rw (pieces-append 10 l rest h.no_newline)
      (unfold drop_last_empty in clip-cons l (drop_last_empty (split 10 rest)) h)

pub scan_lines-nil : scan_lines [] ≡ ([], false)
unfolding scan_lines
scan_lines-nil = refl
