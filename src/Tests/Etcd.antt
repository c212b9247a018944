-- ===== src/Tests/Etcd.antt =====
-- A node that goes from version v3.3.4 to v3.3.12.
use planet.Etcd.Version.Reading.{IsVersion}
use planet.Etcd.Version.{
  read_version, parse_version, current_version_file, write_environment, assume_version, Versions,
  release_file,
}
use planet.Env.{get}
use planet.Etcd.Upgrade.{member_dir, current_or_assumed, check_services, upgrade}
use planet.Trace.{not_found, err, system, ok, Result}
use planet.Etcd.Version.RoundTrip.{read-write, versions_in}
use planet.Strings.{cut}
use planet.Etcd.Upgrade.Effect.{IsUntouched}
use planet.Etcd.Cycle.{version_back, init-upgrade}
use planet.Etcd.Init.Start.{IsLinked}
use planet.Etcd.Init.{member_data, init}
use planet.Base.{
  ◌≡◌, refl, true, false, Option, none, some, List, [], arith, if◌then◌else◌, Text, codes, text_eq,
}
use planet.Os.{below, Node, file, calm}
use planet.Etcd.Upgrade.Rollback.{IsReady, upgrade_lem, rollback-upgrade}
use planet.Etcd.Upgrade.Interrupted.{interrupted_upgrade, full_at_write}

abbrev old_version : Text
old_version = codes "v3.3.4"

abbrev new_version : Text
new_version = codes "v3.3.12"

abbrev node_files : Text → Option Node
node_files q =
    if text_eq q release_file
    then some (file (codes "PLANET_ETCD_VERSION=v3.3.12\n"))
    else if text_eq q current_version_file
    then some (file (codes "PLANET_ETCD_VERSION=v3.3.4\nKUBE_STORAGE_BACKEND=etcd3\n"))
    else none

abbrev released : Versions
released = record { current = new_version; prev = [] }

abbrev installed : Versions
installed = record { current = old_version; prev = [] }

abbrev all_down : Text → Result Text
all_down service = ok (codes "inactive")

node-IsReady : IsReady [] all_down node_files released installed
unfolding get text_eq check_services versions_in read_version parse_version cut
node-IsReady = record { no_proxy = refl; down = refl; release = refl; found = refl }

new_IsVersion : IsVersion new_version
new_IsVersion = record {
  ne_nil = λ e. cc;
  no_newline = omega arith;
  no_return = omega arith;
  fits = omega arith;
}

old_IsVersion : IsVersion old_version
old_IsVersion = record {
  ne_nil = λ e. cc;
  no_newline = omega arith;
  no_return = omega arith;
  fits = omega arith;
}

facts : (text_eq new_version assume_version ≡ false) × (text_eq old_version new_version ≡ false)
unfolding text_eq
facts = (refl, refl)

upgrade_example :
    (after : Text → Option Node) × (upgrade (ok []) all_down false (calm node_files)
      ≡ (ok tt, calm after))
    × (versions_in after current_version_file
        ≡ ok (record { current = new_version; prev = old_version }))
    × ((q : Text) → below (member_dir new_version) q ≡ true → after q ≡ none)
    × ((q : Text) → IsUntouched new_version installed q → after q ≡ node_files q)
upgrade_example =
    upgrade_lem [] all_down node_files released installed node-IsReady new_IsVersion old_IsVersion
      facts.0 facts.1

rollback_example :
    (back : Text → Option Node) × (upgrade
        (ok [])
        all_down
        true
        (upgrade (ok []) all_down false (calm node_files)).1
      ≡ (ok tt, calm back))
    × (current_or_assumed (versions_in back current_version_file)
        ≡ ok (record { current = old_version; prev = [] }))
rollback_example =
    rollback-upgrade [] all_down node_files released installed node-IsReady new_IsVersion
      old_IsVersion facts.0 facts.1

interrupted_example :
    (stop after : Text → Option Node) × (upgrade
        (ok [])
        all_down
        false
        (record { nodes = node_files; faults = full_at_write (system 28) })
      ≡ (err (system 28), calm stop))
    × (stop current_version_file ≡ some (file []))
    × (upgrade (ok []) all_down false (calm stop) ≡ (ok tt, calm after))
    × (versions_in after current_version_file
        ≡ ok (record { current = new_version; prev = assume_version }))
unfolding text_eq
interrupted_example =
    interrupted_upgrade [] all_down node_files released installed node-IsReady new_IsVersion facts.0
      facts.1 (codes "PLANET_ETCD_VERSION=v3.3.12\n")
      (codes "PLANET_ETCD_VERSION=v3.3.4\nKUBE_STORAGE_BACKEND=etcd3\n") (system 28) refl refl

read-write_example :
    versions_in
      (write_environment current_version_file new_version old_version (calm node_files)).1.nodes
      current_version_file
    ≡ (if text_eq new_version assume_version
        then err not_found
        else ok (record { current = new_version; prev = old_version }))
read-write_example =
    read-write current_version_file new_version old_version node_files new_IsVersion
      (λ h. old_IsVersion)

-- No file stands below the directories that are given away.
abbrev nothing_below : Text → List Text
nothing_below p = []

init-upgrade_example :
    IsLinked new_version (init nothing_below (upgrade (ok []) all_down false (calm node_files)).1).1
    × IsLinked
        (version_back old_version new_version
          ((upgrade (ok []) all_down false (calm node_files)).1.nodes member_data))
        (init nothing_below
          (upgrade (ok []) all_down true (upgrade (ok []) all_down false (calm node_files)).1).1).1
init-upgrade_example =
    init-upgrade [] all_down nothing_below node_files released installed node-IsReady new_IsVersion
      old_IsVersion facts.0 facts.1

-- Data of the assumed version that stands there is run again behind a rollback.
assumed_back : (n : Node) → version_back assume_version new_version (some n) ≡ assume_version
unfolding text_eq
assumed_back n = refl
