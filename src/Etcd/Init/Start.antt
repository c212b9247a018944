-- ===== src/Etcd/Init/Start.antt =====
-- The version that `etcdInit` starts.
use planet.Os.{calm, Node, link, Disk, stat, mkdir_all, change_mode}
use planet.Start.Required.{chown_dir, chown_all}
use planet.Etcd.Version.{
  base_dir, assume_version, current_version_file, release_file, Versions, store_base,
}
use planet.Trace.{◌>>=◌, ◌>>◌, ok, err, not_found}
use planet.Etcd.Init.{
  binaries, init, run_version, unless_there, etcdctl_path, etcd_path, choose_version, member_data,
}
use planet.Etcd.Init.Links.{link_binaries_lem, link_binaries-calm, target_of}
use planet.Etcd.Version.RoundTrip.{
  read_version-calm, versions_in, write_environment-calm, environment_nodes,
}
use planet.Base.{
  ◌≡◌, refl, sym, ap, ◌∙◌, inl, inr, false, Option, none, some, List, [], ◌∷◌, arith, Bool-cases,
  Text, text_eq,
}

change_mode-nodes : (p : Text) (d : Disk) → (change_mode p d).1.nodes ≡ d.nodes
unfolding change_mode
change_mode-nodes p d = ground arith

chown_all-nodes : (ps : List Text) (d : Disk) → (chown_all ps d).1.nodes ≡ d.nodes
unfolding chown_all
chown_all-nodes [] d = refl
chown_all-nodes (p ∷ ps) d =
    ground (arith, change_mode-nodes p d, chown_all-nodes ps (change_mode p d).1)

-- `chownDir` changes owners only.
chown_dir-nodes :
    (under : Text → List Text) (dir : Text) (d : Disk) → (chown_dir under dir d).1.nodes ≡ d.nodes
unfolding chown_dir
chown_dir-nodes under dir d =
    ground (arith, change_mode-nodes dir d, chown_all-nodes (under dir) (change_mode dir d).1)

-- Both binaries are links to those of the version.
abbrev pub IsLinked : Text → Disk → Type 0
IsLinked version d =
    (d.nodes etcd_path ≡ some (link (target_of version etcd_path)))
    × (d.nodes etcdctl_path ≡ some (link (target_of version etcdctl_path)))

base_dir-binaries :
    (v : Text)
    → (text_eq (base_dir v) etcd_path ≡ false) × (text_eq (base_dir v) etcdctl_path ≡ false)
unfolding base_dir text_eq
base_dir-binaries [] = (refl, refl)
base_dir-binaries (c ∷ v) = elim (Bool-cases (text_eq (c ∷ v) assume_version)) [
  | inl e ↦ rw e (refl, refl)
  | inr e ↦ rw e (refl, refl)
]

owners_kept :
    (under : Text → List Text) (dir q : Text) (nodes : Text → Option Node) (o : Option Node)
    → nodes store_base ≡ o
    → ((stat store_base >> chown_dir under dir) (calm nodes)).1.nodes q ≡ nodes q
unfolding stat
owners_kept under dir q nodes none h = rw h refl
owners_kept under dir q nodes (some n) h =
    rw h (ap (λ f. f q) (chown_dir-nodes under dir (calm nodes)))

-- Behind the links nothing touches the binaries.
rest_kept :
    (under : Text → List Text) (version q : Text) (nodes : Text → Option Node)
    → text_eq (base_dir version) q ≡ false
    → ((unless_there (mkdir_all (base_dir version))
            >> (stat store_base >> chown_dir under (base_dir version)))
          (calm nodes)).1.nodes
        q
      ≡ nodes q
unfolding unless_there mkdir_all
rest_kept under version q nodes h =
    let made = (mkdir_all (base_dir version) (calm nodes)).1.nodes in
    owners_kept under (base_dir version) q made (made store_base) refl ∙ (rw h refl)

-- Where no call fails, `run_version` leaves both binaries linked to those of the version.
run_version-IsLinked :
    (under : Text → List Text) (version : Text) (nodes : Text → Option Node)
    → IsLinked version (run_version under version (calm nodes)).1
unfolding run_version
run_version-IsLinked under version nodes =
    let (after, e) = link_binaries-calm version binaries nodes in
    let made = link_binaries_lem version (calm nodes) (ap (λ r. r.0) e) in
    rw e (
      rest_kept under version etcd_path after (base_dir-binaries version).0
          ∙ sym (ap (λ r. r.1.nodes etcd_path) e)
          ∙ made.0,
      rest_kept under version etcdctl_path after (base_dir-binaries version).1
          ∙ sym (ap (λ r. r.1.nodes etcdctl_path) e)
          ∙ made.1,
    )

-- The version file decides what runs.
pub init-IsLinked :
    (under : Text → List Text) (r vs : Versions) (nodes : Text → Option Node)
    → versions_in nodes release_file ≡ ok r
    → versions_in nodes current_version_file ≡ ok vs
    → IsLinked vs.current (init under (calm nodes)).1
unfolding init
init-IsLinked under r vs nodes release found = rw (read_version-calm release_file nodes) (
    rw release (
      rw (read_version-calm current_version_file nodes)
        (rw found (run_version-IsLinked under vs.current nodes))))

-- Without a version file, the assumed version where there is data of it, and else the desired one.
abbrev pub version_by_data : Option Node → Text → Text
version_by_data (some n) desired = assume_version
version_by_data none desired = desired

chosen-IsLinked :
    (under : Text → List Text) (desired : Text) (nodes : Text → Option Node) (o : Option Node)
    → nodes member_data ≡ o
    → let s = (choose_version desired >>= run_version under) (calm nodes) in
      IsLinked (version_by_data o desired) s.1
unfolding choose_version stat
chosen-IsLinked under desired nodes (some n) h =
    rw h (run_version-IsLinked under assume_version nodes)
chosen-IsLinked under desired nodes none h = rw h (
    rw (write_environment-calm current_version_file desired [] nodes) (
      run_version-IsLinked under desired (environment_nodes current_version_file desired [] nodes)))

-- A version file that names none leaves it to the data.
pub init-by_data :
    (under : Text → List Text) (r : Versions) (nodes : Text → Option Node)
    → versions_in nodes release_file ≡ ok r
    → versions_in nodes current_version_file ≡ err not_found
    → IsLinked (version_by_data (nodes member_data) r.current) (init under (calm nodes)).1
unfolding init
init-by_data under r nodes release found = rw (read_version-calm release_file nodes) (
    rw release (
      rw (read_version-calm current_version_file nodes)
        (rw found (chosen-IsLinked under r.current nodes (nodes member_data) refl))))
