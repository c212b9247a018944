-- ===== src/Etcd/Version/RoundTrip.antt =====
-- The version file is read as it was written.
use planet.Os.Laws.{write-calm}
use planet.Base.{
  ◌≡◌, refl, ◌∙◌, ◌≢◌, inl, inr, Bool, true, false, not, Option, none, some, List, [], ◌∷◌, ◌++◌,
  append_assoc, append-nil, arith, if◌then◌else◌, Bool-cases, Text, codes, text_eq, text_eq_refl,
  is_empty, is_empty-ne,
}
use planet.Trace.{ok, err, not_found, Result}
use planet.Os.{Fault, Node, file, update, calm, mkdir_all, write}
use planet.Strings.{scan_lines}
use planet.Etcd.Version.{
  Versions, read_version, no_versions, when, scan_version, version_name, prev_version_name,
  backend_name, backend_of, assume_version, setting, dir, write_environment, parse_version,
}
use planet.Etcd.Version.Reading.{scan_prev, scan_current, scan_backend, IsVersion}

abbrev optional : Bool → Text → Text
optional b t = if b then t else []

-- The text that `writeEtcdEnvironment` leaves in the file.
unfoldable pub environment_text : Text → Text → Text
environment_text version prev =
    optional (not (text_eq version assume_version)) (setting version_name version)
    ++ (optional (not (is_empty prev)) (setting prev_version_name prev)
        ++ setting backend_name (backend_of version))

unfoldable pub environment_nodes : Text → Text → Text → (Text → Option Node) → Text → Option Node
unfolding mkdir_all
environment_nodes path version prev nodes =
    update (mkdir_all (dir path) (calm nodes)).1.nodes path
      (some (file (environment_text version prev)))

when-write :
    (b : Bool) (nodes : Text → Option Node) (p s t : Text)
    → when b (write p t) (calm (update nodes p (some (file s))))
      ≡ (ok tt, calm (update nodes p (some (file (s ++ optional b t)))))
when-write true nodes p s t = write-calm nodes p s t
when-write false nodes p s t = rw append-nil

-- Where no call fails, `writeEtcdEnvironment` writes just that text.
pub write_environment-calm :
    (path version prev : Text) (nodes : Text → Option Node)
    → write_environment path version prev (calm nodes)
      ≡ (ok tt, calm (environment_nodes path version prev nodes))
unfolding write_environment environment_nodes environment_text
write_environment-calm path version prev nodes =
    let made = (mkdir_all (dir path) (calm nodes)).1.nodes in
    let first = setting version_name version in
    let second = setting prev_version_name prev in
    let third = setting backend_name (backend_of version) in
    let a = not (text_eq version assume_version) in
    let b = not (is_empty prev) in
    rw (when-write a made path [] first) (
      rw (when-write b made path (optional a first) second) (
        rw (write-calm made path (optional a first ++ optional b second) third)
          (rw append_assoc refl)))

abbrev pub IsOptional : Text → Type 0
IsOptional v = (v ≢ []) → IsVersion v

scan_parts :
    (b : Bool) (version prev : Text)
    → IsVersion version
    → IsOptional prev
    → scan_version no_versions
        (scan_lines (
          optional (not b) (setting version_name version)
          ++ (optional (not (is_empty prev)) (setting prev_version_name prev)
              ++ setting backend_name (if b then codes "etcd2" else codes "etcd3")))).0
      ≡ record { current = if b then [] else version; prev = prev }
scan_parts true version [] h k = scan_backend no_versions true
scan_parts false version [] h k = scan_current no_versions version _ h ∙ scan_backend _ false
scan_parts true version (c ∷ cs) h k =
    scan_prev no_versions (c ∷ cs) _ (k λ x. cc) ∙ scan_backend _ true
scan_parts false version (c ∷ cs) h k =
    scan_current no_versions version _ h ∙ scan_prev _ (c ∷ cs) _ (k λ x. cc) ∙ scan_backend _ false

scan_text :
    (version prev : Text)
    → IsVersion version
    → IsOptional prev
    → scan_version no_versions (scan_lines (environment_text version prev)).0
      ≡ record { current = if text_eq version assume_version then [] else version; prev = prev }
unfolding environment_text
scan_text version = scan_parts (text_eq version assume_version) version

-- A file that was written with a version other than the assumed one reads back as that version and
-- the one before it; for the assumed version the file names none.
pub parse_version-environment_text :
    (version prev : Text)
    → IsVersion version
    → IsOptional prev
    → parse_version (environment_text version prev) ≡ (
        if text_eq version assume_version
        then err not_found
        else ok (record { current = version; prev = prev }))
unfolding parse_version
parse_version-environment_text version prev h k =
    rw (scan_text version prev h k) (elim (Bool-cases (text_eq version assume_version)) [
      | inl e ↦ rw e refl
      | inr e ↦ rw (e, is_empty-ne version h.ne_nil)
    ])

-- What a reader of the file `path` finds where no call fails.
unfoldable pub versions_in : (Text → Option Node) → Text → Result Versions
versions_in nodes path = (read_version path (calm nodes)).0

-- Reading changes nothing.
pub read_version-calm :
    (path : Text) (nodes : Text → Option Node)
    → read_version path (calm nodes) ≡ (versions_in nodes path, calm nodes)
unfolding versions_in read_version
read_version-calm path nodes = ground arith

-- What is read depends on the file alone.
pub versions_in-cong :
    (m n : Text → Option Node) (path : Text)
    → m path ≡ n path
    → versions_in m path ≡ versions_in n path
unfolding versions_in read_version
versions_in-cong m n path e = ground arith

pub versions_in-file :
    (nodes : Text → Option Node) (path t : Text)
    → nodes path ≡ some (file t)
    → versions_in nodes path ≡ parse_version t
unfolding versions_in read_version
versions_in-file nodes path t e = ground arith

-- After `writeEtcdEnvironment` with no failing call, `readEtcdVersion` finds the version written and
-- the one before it, and finds no version where the assumed one was written.
pub read-write :
    (path version prev : Text) (nodes : Text → Option Node)
    → IsVersion version
    → IsOptional prev
    → versions_in (write_environment path version prev (calm nodes)).1.nodes path ≡ (
        if text_eq version assume_version
        then err not_found
        else ok (record { current = version; prev = prev }))
unfolding environment_nodes
read-write path version prev nodes h k = rw (write_environment-calm path version prev nodes) (
    versions_in-file _ path (environment_text version prev) (rw text_eq_refl)
    ∙ parse_version-environment_text version prev h k)

-- The same where the next two calls do not fail.
pub read_version-step :
    (path t : Text) (nodes : Text → Option Node) (rest : List (Option Fault))
    → nodes path ≡ some (file t)
    → read_version path (record { nodes = nodes; faults = none ∷ none ∷ rest })
      ≡ (versions_in nodes path, record { nodes = nodes; faults = rest })
unfolding versions_in read_version
read_version-step path t nodes rest h = ground arith
