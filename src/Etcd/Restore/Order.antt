-- ===== src/Etcd/Restore/Order.antt =====
-- The order in which `etcdRestore` stops and starts the temporary etcd.
use planet.Trace.{lift, Result, continue_ok, ok, ◌>>◌, Exec, pure}
use planet.Systemd.{on_disk, systemctl, Host, Command}
use planet.Os.{Disk, remove_all}
use planet.Etcd.Service.{
  enable_service, disable_service, upgrade_service, disable_etcd, enable_upgrade,
}
use planet.Etcd.Restore.{
  wait_healthy, data_dir, restore, restore_to, Answers, wait_stopped, disable_upgrade,
}
use planet.Env.{EnvVars, get}
use planet.Etcd.Upgrade.{proxy_on, proxy_name}
use planet.Base.{
  ◌≡◌, refl, sym, ap, ◌∙◌, false, List, [], ◌∷◌, ◌++◌, append_assoc, append-nil, Text, codes,
  text_eq,
}

abbrev pub command : Text → Text → Command
command verb unit = record { verb = verb; unit = unit }

abbrev pub disabling : List Command
disabling = command (codes "mask") upgrade_service ∷ command (codes "stop") upgrade_service ∷ []

abbrev pub enabling : List Command
enabling = command (codes "unmask") upgrade_service ∷ command (codes "start") upgrade_service ∷ []

-- A program that, where it succeeds, has run just these commands.
Runs : Exec Host (Unit {0}) → List Command → Type 0
Runs m cs = (h : Host) → (m h).0 ≡ ok tt → (m h).1.commands ≡ h.commands ++ cs

Runs-then :
    (m n : Exec Host (Unit {0})) (cs ds : List Command)
    → Runs m cs
    → Runs n ds
    → Runs (m >> n) (cs ++ ds)
unfolding Runs
Runs-then m n cs ds a b h e =
    let (x, q, step) = continue_ok (m h).0 (λ (_ : Unit {0}). n) (m h).1 tt e in
    ap (λ r. r.1.commands) step
    ∙ b (m h).1 (ap (λ r. r.0) (sym step) ∙ e)
    ∙ ap (λ l. l ++ ds) (a h q)
    ∙ append_assoc h.commands cs ds

-- A step that runs no command.
Runs-lift : (r : Result (Unit {0})) → Runs (lift r) []
unfolding Runs
Runs-lift r h e = sym (append-nil h.commands)

Runs-on_disk : (m : Exec Disk (Unit {0})) → Runs (on_disk m) []
unfolding Runs
Runs-on_disk m h e = sym (append-nil h.commands)

Runs-systemctl : (verb unit : Text) → Runs (systemctl verb unit) (command verb unit ∷ [])
unfolding Runs systemctl
Runs-systemctl verb unit h e = refl

Runs-disable_upgrade : (ticks : List (Result (List Text))) → Runs (disable_upgrade ticks) disabling
unfolding disable_etcd disable_service
Runs-disable_upgrade ticks = Runs-then (pure tt) _ [] disabling (Runs-lift (ok tt)) (
    Runs-then _ _ _ _ (Runs-systemctl (codes "mask") upgrade_service) (
      Runs-then _ _ _ _ (Runs-systemctl (codes "stop") upgrade_service)
        (Runs-lift (wait_stopped ticks))))

Runs-enable_upgrade :
    (vars : EnvVars)
    → text_eq (get vars proxy_name) proxy_on ≡ false
    → Runs (enable_upgrade (ok vars)) enabling
unfolding Runs enable_upgrade enable_service
Runs-enable_upgrade vars h = rw h (
    Runs-then _ _ _ _ (Runs-systemctl (codes "unmask") upgrade_service)
      (Runs-systemctl (codes "start") upgrade_service))

module _ (a : Answers) (vars : EnvVars) (env : a.env ≡ ok vars)
    (no_proxy : text_eq (get vars proxy_name) proxy_on ≡ false) where
  enables : Runs (enable_upgrade a.env) enabling
  enables = rw env (Runs-enable_upgrade vars no_proxy)

  restore_to_order :
      (dir : Text)
      → Runs (restore_to a dir) (disabling ++ (enabling ++ (disabling ++ (enabling ++ disabling))))
  unfolding restore_to
  restore_to_order dir = Runs-then _ _ _ _ (Runs-disable_upgrade a.stopping) (
      Runs-then _ _ [] _ (Runs-on_disk (remove_all dir)) (
        Runs-then _ _ _ _ enables (
          Runs-then _ _ [] _ (Runs-lift a.client) (
            Runs-then _ _ [] _ (Runs-lift (wait_healthy a.initialized)) (
              Runs-then _ _ _ _ (Runs-disable_upgrade a.stopping_again) (
                Runs-then _ _ [] _ (Runs-on_disk (a.offline dir)) (
                  Runs-then _ _ _ _ enables (
                    Runs-then _ _ [] _ (Runs-lift (wait_healthy a.started)) (
                      Runs-then _ _ [] _ (Runs-lift a.online)
                        (Runs-disable_upgrade a.stopping_last))))))))))

  -- On a node that is no proxy a restore that succeeds has masked and stopped the temporary etcd, started
  -- it, stopped it for the offline restore, started it for the online one and stopped it, in this order
  -- and with no other command, so it leaves that service masked.
  pub restore_order :
      (h : Host)
      → (restore a h).0 ≡ ok tt
      → (restore a h).1.commands
        ≡ h.commands ++ (disabling ++ (enabling ++ (disabling ++ (enabling ++ disabling))))
  unfolding restore Runs
  restore_order h e =
      let next : Host = record h { disk = (data_dir h.disk).1 } in
      let (dir, q, step) = continue_ok (data_dir h.disk).0 (restore_to a) next tt e in
      ap (λ r. r.1.commands) step ∙ restore_to_order dir next (ap (λ r. r.0) (sym step) ∙ e)
