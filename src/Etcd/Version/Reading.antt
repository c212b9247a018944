-- ===== src/Etcd/Version/Reading.antt =====
-- What one written setting adds to the versions that a scan has found.
use planet.Base.{
  ◌<◌, ◌≡◌, refl, ap, ◌≢◌, Bool, true, false, [], ◌∷◌, ◌++◌, append_assoc, arith, if◌then◌else◌,
  Text, codes, text_eq, length, length-append, All-append,
}
use planet.Strings.{scan_lines, cut}
use planet.Strings.Split.{cut-append, Lacks}
use planet.Strings.Lines.{scan_lines-cons, IsLine}
use planet.Etcd.Version.{
  scan_line, backend_name, version_name, prev_version_name, Versions, scan_version, setting,
}

-- A version that the file can hold: it is not empty, and `NAME=version` is one line.
pub record IsVersion (v : Text) : Type 0 where
  pub ne_nil : v ≢ []
  pub no_newline : Lacks 10 v
  pub no_return : Lacks 13 v
  pub fits : length v < 65000

setting-IsLine :
    (name v : Text)
    → IsLine name
    → length name < 100
    → Lacks 10 v
    → Lacks 13 v
    → length v < 65000
    → IsLine (name ++ (codes "=" ++ v))
setting-IsLine name v h short n r fits = record {
  no_newline = All-append (λ c. c ≢ 10) name (codes "=" ++ v) h.no_newline (omega arith, n);
  no_return = All-append (λ c. c ≢ 13) name (codes "=" ++ v) h.no_return (omega arith, r);
  fits = omega (arith, length-append name (codes "=" ++ v));
}

setting-append :
    (name v rest : Text) → setting name v ++ rest ≡ (name ++ (codes "=" ++ v)) ++ 10 ∷ rest
setting-append name v rest = simp append_assoc

set_version : Versions → Text → Text → Versions
set_version vs name v =
    if text_eq name version_name
    then record vs { current = v }
    else if text_eq name prev_version_name
    then record vs { prev = v }
    else vs

scan_line-setting :
    (vs : Versions) (name v : Text)
    → Lacks b'=' name
    → scan_line vs (name ++ (codes "=" ++ v)) ≡ set_version vs name v
unfolding set_version scan_line
scan_line-setting vs name v eq = rw (cut-append b'=' name v eq, scan_line)

-- Scanning a written setting is one step of the scan, and then the scan of what follows it.
scan-setting :
    (vs : Versions) (name v rest : Text)
    → IsLine name
    → length name < 100
    → Lacks b'=' name
    → Lacks 10 v
    → Lacks 13 v
    → length v < 65000
    → scan_version vs (scan_lines (setting name v ++ rest)).0
      ≡ scan_version (set_version vs name v) (scan_lines rest).0
unfolding scan_version
scan-setting vs name v rest h short eq n r fits = rw (setting-append name v rest) (
    rw (scan_lines-cons (name ++ (codes "=" ++ v)) rest (setting-IsLine name v h short n r fits))
      (ap (λ w. scan_version w (scan_lines rest).0) (scan_line-setting vs name v eq)))

name_facts :
    IsLine version_name
    × IsLine prev_version_name
    × IsLine backend_name
    × Lacks b'=' version_name
    × Lacks b'=' prev_version_name
    × Lacks b'=' backend_name
name_facts = (
  record { no_newline = omega arith; no_return = omega arith; fits = omega arith },
  record { no_newline = omega arith; no_return = omega arith; fits = omega arith },
  record { no_newline = omega arith; no_return = omega arith; fits = omega arith },
  omega arith,
  omega arith,
  omega arith,
)

module _ (vs : Versions) (v rest : Text) (h : IsVersion v) where
  pub scan_current :
      scan_version vs (scan_lines (setting version_name v ++ rest)).0
      ≡ scan_version (record vs { current = v }) (scan_lines rest).0
  unfolding set_version text_eq
  scan_current =
      scan-setting vs version_name v rest name_facts.0 (omega arith) name_facts.3 h.no_newline
        h.no_return h.fits

  pub scan_prev :
      scan_version vs (scan_lines (setting prev_version_name v ++ rest)).0
      ≡ scan_version (record vs { prev = v }) (scan_lines rest).0
  unfolding set_version text_eq
  scan_prev =
      scan-setting vs prev_version_name v rest name_facts.1 (omega arith) name_facts.4 h.no_newline
        h.no_return h.fits

-- The setting of the storage backend ends the file, and says nothing of the versions.
pub scan_backend :
    (vs : Versions) (b : Bool)
    → scan_version vs
        (scan_lines (setting backend_name (if b then codes "etcd2" else codes "etcd3"))).0
      ≡ vs
unfolding scan_version scan_lines text_eq cut
scan_backend vs true = refl
scan_backend vs false = refl
