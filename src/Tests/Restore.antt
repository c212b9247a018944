-- ===== src/Tests/Restore.antt =====
-- A restore in which every wait ends, and a wipe.
use planet.Etcd.Restore.Wiped.{Typed, wipe_lem, dir_of}
use planet.Etcd.Restore.Order.{restore_order, disabling, enabling}
use planet.Etcd.Restore.{Answers, restore, wait_stopped, wipe, wait_healthy, data_dir, restore_to}
use planet.Trace.{Result, ok}
use planet.Systemd.{Host, systemctl}
use planet.Env.{get}
use planet.Etcd.Version.RoundTrip.{versions_in}
use planet.Etcd.Upgrade.{proxy_on, proxy_name}
use planet.Etcd.Version.{assume_version, current_version_file, base_dir, read_version}
use planet.Os.{calm, remove_all}
use planet.Os.Laws.{removed}
use planet.Etcd.Service.{disable_etcd, enable_upgrade, enable_service}
use planet.Base.{◌≡◌, refl, ◌≢◌, ◌⊎◌, true, false, none, List, [], ◌∷◌, ◌++◌, Text, codes, text_eq}

abbrev ticks : List (Result (List Text))
ticks = ok (codes "systemd" ∷ codes "etcd" ∷ []) ∷ ok (codes "systemd" ∷ []) ∷ []

abbrev answers : Answers
answers = record {
  env = ok [];
  client = ok tt;
  stopping = ticks;
  stopping_again = ticks;
  stopping_last = ticks;
  initialized = false ∷ true ∷ [];
  started = true ∷ [];
  offline = λ dir d. (ok tt, d);
  online = ok tt;
}

abbrev node : Host
node = record { disk = calm (λ q. none); commands = []; answers = [] }

not_a_proxy : text_eq (get [] proxy_name) proxy_on ≡ false
unfolding get text_eq
not_a_proxy = refl

restored : (restore answers node).0 ≡ ok tt
unfolding restore data_dir read_version restore_to disable_etcd systemctl wait_stopped text_eq
    remove_all enable_upgrade get enable_service wait_healthy
restored = refl

restore_order_example :
    (restore answers node).1.commands
    ≡ disabling ++ (enabling ++ (disabling ++ (enabling ++ disabling)))
restore_order_example = restore_order answers [] refl not_a_proxy node restored

abbrev dir : Text
dir = base_dir assume_version

no_file : dir_of (versions_in (λ q. none) current_version_file) ≡ ok dir
unfolding versions_in read_version
no_file = refl

wipe_example :
    (((false ≡ true) ⊎ Typed (ok (codes "no")))
      × (wipe false (ok (codes "no")) (calm (λ q. none)) ≡ (ok tt, calm (removed dir (λ q. none)))))
    ⊎ ((false ≡ false)
        × (¬ Typed (ok (codes "no")))
        × ((wipe false (ok (codes "no")) (calm (λ q. none))).0 ≢ ok tt)
        × ((wipe false (ok (codes "no")) (calm (λ q. none))).1 ≡ calm (λ q. none)))
wipe_example = wipe_lem false (ok (codes "no")) (λ q. none) dir no_file
