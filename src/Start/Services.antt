-- ===== src/Start/Services.antt =====
-- What tool/planet/start.go links into the systemd of the container: `setupEtcd` and `setupFlannel`.
pub mod Links
use planet.Trace.{
  already_exists, is_not_found, lift, err, attempt, ok, Exec, Error, Result, ◌>>=◌, ◌>>◌,
}
use planet.Os.{symlink, Disk, remove, mkdir_all}
use planet.Start.{Config}
use planet.Env.{upsert}
use planet.Utils.SafeFile.{safe_write}
use planet.Base.{
  ◌+◌, Bool, true, false, not, ◌&&◌, [], ◌∷◌, ◌++◌, leb, if◌then◌else◌, Text, codes, text_eq,
}

abbrev pub dropin_path : Text
dropin_path = codes "/etc/systemd/system/etcd.service.d/10-gateway.conf"

abbrev pub dropin_target : Text
dropin_target = codes "/lib/systemd/system/etcd-gateway.dropin"

-- `strings.ToLower` on ASCII.
abbrev pub lower : Text → Text
lower [] = []
lower (c ∷ cs) = (if leb 65 c && leb c 90 then c + 32 else c) ∷ lower cs

-- An error of the kind is passed over.
abbrev ignore_missing : Result (Unit {0}) → Result (Unit {0})
ignore_missing (ok _) = ok tt
ignore_missing (err e) = if is_not_found e then ok tt else err e

abbrev pub is_existing : Error → Bool
is_existing already_exists = true
is_existing _ = false

abbrev pub ignore_existing : Result (Unit {0}) → Result (Unit {0})
ignore_existing (ok _) = ok tt
ignore_existing (err e) = if is_existing e then ok tt else err e

unfoldable pub remove_dropin : Text → Exec Disk (Unit {0})
remove_dropin root = do r ← attempt (remove (root ++ dropin_path)); lift (ignore_missing r)

-- A drop-in that is there stays.
unfoldable pub relink_dropin : Text → Exec Disk (Unit {0})
relink_dropin root = do
  r ← attempt (symlink dropin_target (root ++ dropin_path))
  lift (ignore_existing r)

unfoldable pub link_dropin : Text → Exec Disk (Unit {0})
unfolding mkdir_all relink_dropin
link_dropin root = do
  mkdir_all (root ++ codes "/etc/systemd/system/etcd.service.d")
  relink_dropin root

-- `root` is the root file system, an absolute path with no slash at its end.
unfoldable pub setup_etcd : Text → Text → Exec Disk (Unit {0})
unfolding remove_dropin link_dropin
setup_etcd root etcd_proxy =
    if not (text_eq (lower etcd_proxy) (codes "on")) then remove_dropin root else link_dropin root

abbrev pub ipam_name : Text
ipam_name = codes "KUBE_ENABLE_IPAM"

abbrev pub backend_name : Text
backend_name = codes "FLANNEL_BACKEND"

abbrev pub wants_path : Text
wants_path = codes "/lib/systemd/system/multi-user.target.wants/flanneld.service"

abbrev pub unit_path : Text
unit_path = codes "/lib/systemd/system/flanneld.service"

abbrev pub conflist_path : Text
conflist_path = codes "/etc/cni/net.d/10-flannel.conflist"

unfoldable pub flannel_backend : Text → Text
unfolding text_eq
flannel_backend provider =
    if text_eq provider (codes "aws")
    then codes "aws-vpc"
    else if text_eq provider (codes "gce")
    then codes "gce"
    else codes "vxlan"

-- The configuration and the disk that `setupFlannel` changes.
pub record Setup : Type 0 where
  pub config : Config
  pub disk : Disk

abbrev pub set_env : Text → Text → Exec Setup (Unit {0})
set_env k v s = (ok tt, record s { config = record s.config { env = upsert s.config.env k v } })

abbrev pub in_disk : {A : Type 0} → Exec Disk A → Exec Setup A
in_disk m s = let (r, d) = m s.disk in (r, record s { disk = d })

-- The unit is linked and the network configuration written: `conflist` is the text `flannelConflist`
-- and `temp` the name of the temporary file.
unfoldable pub install_unit : Text → Text → Text → Exec Setup (Unit {0})
install_unit conflist temp root = do
  r ← attempt (in_disk (symlink unit_path (root ++ wants_path)))
  lift (ignore_existing r)
  in_disk (safe_write temp (root ++ conflist_path) conflist)

unfoldable pub setup_flannel : Text → Text → Exec Setup (Unit {0})
unfolding upsert flannel_backend
setup_flannel conflist temp s =
    (do
      attempt (in_disk (remove (s.config.rootfs ++ wants_path)))
      set_env ipam_name (codes "false")
      if s.config.disable_flannel then set_env ipam_name (codes "true") else do
        set_env backend_name (flannel_backend s.config.cloud_provider)
        install_unit conflist temp s.config.rootfs)
      s
