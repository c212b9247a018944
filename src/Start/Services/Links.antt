-- ===== src/Start/Services/Links.antt =====
-- What `setupEtcd` and `setupFlannel` leave behind.
use planet.Trace.{◌>>◌, ok, err, lift, Exec, Result}
use planet.Start.Services.{
  in_disk, conflist_path, ignore_existing, wants_path, relink_dropin, remove_dropin, unit_path,
  install_unit, link_dropin, lower, flannel_backend, backend_name, ipam_name, dropin_target, Setup,
  setup_flannel, setup_etcd, dropin_path,
}
use planet.Utils.SafeFile.{safe_write}
use planet.Os.{Disk, calm, symlink, mkdir_all, link, Node}
use planet.Env.{get}
use planet.Env.Laws.{get-upsert}
use planet.Os.Laws.{symlink-some, remove-some, update_same, remove-none, symlink-none}
use planet.Base.{
  ◌≡◌, refl, inl, inr, false, Option, none, some, [], ◌∷◌, ◌++◌, arith, if◌then◌else◌, Bool-cases,
  Text, codes, text_eq,
}

text_eq-append : (r a b : Text) → text_eq (r ++ a) (r ++ b) ≡ text_eq a b
unfolding text_eq
text_eq-append [] a b = refl
text_eq-append (c ∷ r) a b = ground (arith, text_eq-append r a b)

directory-ne-dropin :
    (root : Text)
    → text_eq (root ++ codes "/etc/systemd/system/etcd.service.d") (root ++ dropin_path) ≡ false
unfolding text_eq
directory-ne-dropin root =
    text_eq-append root (codes "/etc/systemd/system/etcd.service.d") dropin_path

-- What stands at the drop-in of the gateway.
abbrev pub kept_or_linked : Option Node → Node
kept_or_linked (some n) = n
kept_or_linked none = link dropin_target

abbrev directory_made : Text → (Text → Option Node) → Text → Option Node
directory_made root nodes =
    (mkdir_all (root ++ codes "/etc/systemd/system/etcd.service.d") (calm nodes)).1.nodes

dropin_cases :
    (root : Text) (m : Text → Option Node) (o : Option Node)
    → m (root ++ dropin_path) ≡ o
    → ((relink_dropin root (calm m)).0 ≡ ok tt)
      × ((relink_dropin root (calm m)).1.nodes (root ++ dropin_path) ≡ some (kept_or_linked o))
unfolding relink_dropin
dropin_cases root m none h =
    rw (symlink-none dropin_target (root ++ dropin_path) m h)
      (refl, update_same m (root ++ dropin_path) (some (link dropin_target)))
dropin_cases root m (some n) h =
    rw (symlink-some dropin_target (root ++ dropin_path) m n h) (refl, h)

link_dropin_lem :
    (root : Text) (nodes : Text → Option Node) (o : Option Node)
    → nodes (root ++ dropin_path) ≡ o
    → ((link_dropin root (calm nodes)).0 ≡ ok tt)
      × ((link_dropin root (calm nodes)).1.nodes (root ++ dropin_path) ≡ some (kept_or_linked o))
unfolding link_dropin mkdir_all
link_dropin_lem root nodes o h =
    let m = directory_made root nodes in
    let at : m (root ++ dropin_path) ≡ o = rw (directory-ne-dropin root) h in
    dropin_cases root m o at

remove_dropin_lem :
    (root : Text) (nodes : Text → Option Node) (o : Option Node)
    → nodes (root ++ dropin_path) ≡ o
    → ((remove_dropin root (calm nodes)).0 ≡ ok tt)
      × ((remove_dropin root (calm nodes)).1.nodes (root ++ dropin_path) ≡ none)
unfolding remove_dropin
remove_dropin_lem root nodes none h = rw (remove-none (root ++ dropin_path) nodes h) (refl, h)
remove_dropin_lem root nodes (some n) h =
    rw (remove-some (root ++ dropin_path) nodes n h)
      (refl, update_same nodes (root ++ dropin_path) none)

-- Where no call fails, the drop-in of the gateway is there exactly where the node is a proxy: one that
-- is there stays, and a second run changes nothing more.
setup_etcd_lem :
    (root etcd_proxy : Text) (nodes : Text → Option Node)
    → ((setup_etcd root etcd_proxy (calm nodes)).0 ≡ ok tt)
      × ((setup_etcd root etcd_proxy (calm nodes)).1.nodes (root ++ dropin_path) ≡ (
          if text_eq (lower etcd_proxy) (codes "on")
          then some (kept_or_linked (nodes (root ++ dropin_path)))
          else none))
unfolding setup_etcd
setup_etcd_lem root etcd_proxy nodes = elim (Bool-cases (text_eq (lower etcd_proxy) (codes "on"))) [
  | inl e ↦ rw e (link_dropin_lem root nodes (nodes (root ++ dropin_path)) refl)
  | inr e ↦ rw e (remove_dropin_lem root nodes (nodes (root ++ dropin_path)) refl)
]

config_kept :
    (r : Result (Unit {0})) (m : Exec Disk (Unit {0})) (s : Setup)
    → ((lift r >> in_disk m) s).1.config ≡ s.config
config_kept (ok _) m s = refl
config_kept (err e) m s = refl

install_unit-config :
    (conflist temp root : Text) (s : Setup)
    → (install_unit conflist temp root s).1.config ≡ s.config
unfolding install_unit
install_unit-config conflist temp root s =
    let (r, d) = symlink unit_path (root ++ wants_path) s.disk in
    config_kept (ignore_existing r) (safe_write temp (root ++ conflist_path) conflist)
      (record s { disk = d })

-- Whatever calls fail, the settings of flannel are in the environment: Kubernetes assigns addresses
-- exactly where flannel is off, and otherwise the backend is the one of the cloud.
pub setup_flannel_lem :
    (conflist temp : Text) (s : Setup)
    → let env = (setup_flannel conflist temp s).1.config.env in
      (get env ipam_name ≡ (if s.config.disable_flannel then codes "true" else codes "false"))
      × (get env backend_name ≡ (
          if s.config.disable_flannel
          then get s.config.env backend_name
          else flannel_backend s.config.cloud_provider))
unfolding setup_flannel
setup_flannel_lem conflist temp s = elim (Bool-cases s.config.disable_flannel) [
  | inl e ↦ rw e (rw get-upsert refl, rw get-upsert (rw get-upsert refl))
  | inr e ↦ rw e (
    rw (install_unit-config conflist temp s.config.rootfs) (rw get-upsert (rw get-upsert refl)),
    rw (install_unit-config conflist temp s.config.rootfs) (rw get-upsert refl),
  )
]
