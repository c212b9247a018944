-- ===== src/Etcd/Upgrade/Rollback.antt =====
-- Upgrades that succeed: what the version file says afterwards, and that a second run and a rollback
-- do what they should.
use planet.Etcd.Version.Reading.{IsVersion}
use planet.Base.{
  ◌≡◌, refl, ap, ◌∙◌, ◌≢◌, Bool, true, false, Option, none, [], arith, if◌then◌else◌, Text, text_eq,
  text_eq_iff, text_eq_refl, is_empty-ne,
}
use planet.Env.{EnvVars, get}
use planet.Trace.{Result, ok}
use planet.Os.{below, Node, calm}
use planet.Etcd.Version.{Versions, release_file, current_version_file, assume_version}
use planet.Etcd.Version.RoundTrip.{
  environment_text, write_environment-calm, environment_nodes, parse_version-environment_text,
  versions_in-file, versions_in-cong, read_version-calm, versions_in,
}
use planet.Etcd.Upgrade.{
  member_dir, move_to, restore_backup, switch_version, upgrade, check_services, services,
  proxy_name, proxy_on, current_or_assumed,
}
use planet.Etcd.Upgrade.Effect.{
  moved-IsUntouched, moved-wiped, IsUntouched, moved-release_file, moved-version_file, moved-moved,
  move_to-calm, moved,
}

-- The state of a node on which an upgrade runs: not a proxy, with its services down, the release
-- file and the version file readable.
pub record IsReady (vars : EnvVars) (status : Text → Result Text) (nodes : Text → Option Node)
    (desired vs : Versions) : Type 0 where
  pub no_proxy : text_eq (get vars proxy_name) proxy_on ≡ false
  pub down : check_services status services ≡ ok tt
  pub release : versions_in nodes release_file ≡ ok desired
  pub found : current_or_assumed (versions_in nodes current_version_file) ≡ ok vs

pub moved_versions :
    (nodes : Text → Option Node) (r vs : Versions)
    → IsVersion r.current
    → IsVersion vs.current
    → text_eq r.current assume_version ≡ false
    → text_eq vs.current r.current ≡ false
    → versions_in (moved r.current vs nodes) current_version_file
      ≡ ok (record { current = r.current; prev = vs.current })
moved_versions nodes r vs rv cv ra ne =
    versions_in-file _ current_version_file _ (moved-version_file r.current vs nodes ne)
    ∙ parse_version-environment_text r.current vs.current rv (λ _. cv)
    ∙ rw ra refl

chosen :
    (rollback : Bool) (nodes : Text → Option Node) (r vs : Versions)
    → versions_in nodes release_file ≡ ok r
    → current_or_assumed (versions_in nodes current_version_file) ≡ ok vs
    → switch_version rollback (calm nodes)
      ≡ (if rollback then restore_backup vs else move_to r.current vs) (calm nodes)
unfolding switch_version
chosen rollback nodes r vs release found =
    rw (read_version-calm release_file nodes)
      (rw release (rw (read_version-calm current_version_file nodes) (rw found refl)))

pub restore_backup-calm :
    (vs : Versions) (nodes : Text → Option Node)
    → vs.prev ≢ []
    → restore_backup vs (calm nodes)
      ≡ (ok tt, calm (environment_nodes current_version_file vs.prev [] nodes))
unfolding restore_backup
restore_backup-calm vs nodes h =
    rw (is_empty-ne vs.prev h) (write_environment-calm current_version_file vs.prev [] nodes)

pub restored_versions :
    (v : Text) (nodes : Text → Option Node)
    → IsVersion v
    → current_or_assumed
        (versions_in (environment_nodes current_version_file v [] nodes) current_version_file)
      ≡ ok (record { current = v; prev = [] })
unfolding environment_nodes
restored_versions v nodes h =
    rw
      (versions_in-file (environment_nodes current_version_file v [] nodes) current_version_file
        (environment_text v []) (rw (text_eq_refl current_version_file)))
      (rw (parse_version-environment_text v [] h (λ n. absurd (n refl)))
        (ground (arith, text_eq_iff v assume_version)))

module _ (vars : EnvVars) (status : Text → Result Text) where
  pub upgrade_chosen :
      (rollback : Bool) (nodes : Text → Option Node) (r vs : Versions)
      → IsReady vars status nodes r vs
      → upgrade (ok vars) status rollback (calm nodes)
        ≡ (if rollback then restore_backup vs else move_to r.current vs) (calm nodes)
  unfolding upgrade
  upgrade_chosen rollback nodes r vs h =
      rw h.no_proxy (rw h.down (chosen rollback nodes r vs h.release h.found))

  pub upgrade-calm :
      (nodes : Text → Option Node) (r vs : Versions)
      → IsReady vars status nodes r vs
      → upgrade (ok vars) status false (calm nodes) ≡ (ok tt, calm (moved r.current vs nodes))
  upgrade-calm nodes r vs h = upgrade_chosen false nodes r vs h ∙ move_to-calm r.current vs nodes

  -- After a move the node is ready again, at the desired version with the old one behind it.
  pub moved-IsReady :
      (nodes : Text → Option Node) (r vs : Versions)
      → IsReady vars status nodes r vs
      → IsVersion r.current
      → IsVersion vs.current
      → text_eq r.current assume_version ≡ false
      → text_eq vs.current r.current ≡ false
      → IsReady vars status
          (moved r.current vs nodes)
          r
          (record { current = r.current; prev = vs.current })
  moved-IsReady nodes r vs h rv cv ra ne = record {
    no_proxy = h.no_proxy;
    down = h.down;
    release =
        versions_in-cong _ nodes release_file (moved-release_file r.current vs nodes) ∙ h.release;
    found = rw (moved_versions nodes r vs rv cv ra ne) refl;
  }

  -- On a ready node where the desired version differs from the current one, an upgrade with no
  -- failing call succeeds: the version file names the desired version with the old one as backup,
  -- the data directory of the desired version is empty, and every path is as it was, outside the
  -- version file and its directory, that data directory, and the one of the backup if there was one.
  pub upgrade_lem :
      (nodes : Text → Option Node) (r vs : Versions)
      → IsReady vars status nodes r vs
      → IsVersion r.current
      → IsVersion vs.current
      → text_eq r.current assume_version ≡ false
      → text_eq vs.current r.current ≡ false
      → (after : Text → Option Node) × (upgrade (ok vars) status false (calm nodes)
          ≡ (ok tt, calm after))
        × (versions_in after current_version_file
            ≡ ok (record { current = r.current; prev = vs.current }))
        × ((q : Text) → below (member_dir r.current) q ≡ true → after q ≡ none)
        × ((q : Text) → IsUntouched r.current vs q → after q ≡ nodes q)
  upgrade_lem nodes r vs h rv cv ra ne = (
    moved r.current vs nodes,
    upgrade-calm nodes r vs h,
    moved_versions nodes r vs rv cv ra ne,
    λ q. moved-wiped r.current q vs nodes,
    λ q. moved-IsUntouched r.current q vs nodes,
  )

  -- A second run of an upgrade that succeeded succeeds and changes nothing.
  upgrade_again :
      (nodes : Text → Option Node) (r vs : Versions)
      → IsReady vars status nodes r vs
      → IsVersion r.current
      → IsVersion vs.current
      → text_eq r.current assume_version ≡ false
      → text_eq vs.current r.current ≡ false
      → upgrade (ok vars) status false (upgrade (ok vars) status false (calm nodes)).1
        ≡ upgrade (ok vars) status false (calm nodes)
  upgrade_again nodes r vs h rv cv ra ne =
      let now : Versions = record { current = r.current; prev = vs.current } in
      rw (upgrade-calm nodes r vs h) (
        upgrade-calm (moved r.current vs nodes) r now (moved-IsReady nodes r vs h rv cv ra ne)
        ∙ ap (λ n. (ok tt, calm n)) (moved-moved r.current vs now nodes (text_eq_refl r.current)))

  -- A rollback after an upgrade names the version from before the upgrade again, with no backup; the
  -- assumed version is named by a file that names none.
  pub rollback-upgrade :
      (nodes : Text → Option Node) (r vs : Versions)
      → IsReady vars status nodes r vs
      → IsVersion r.current
      → IsVersion vs.current
      → text_eq r.current assume_version ≡ false
      → text_eq vs.current r.current ≡ false
      → (back : Text → Option Node) × (upgrade
            (ok vars)
            status
            true
            (upgrade (ok vars) status false (calm nodes)).1
          ≡ (ok tt, calm back))
        × (current_or_assumed (versions_in back current_version_file)
            ≡ ok (record { current = vs.current; prev = [] }))
  rollback-upgrade nodes r vs h rv cv ra ne =
      let now : Versions = record { current = r.current; prev = vs.current } in
      let after = moved r.current vs nodes in
      (
        environment_nodes current_version_file vs.current [] after,
        rw (upgrade-calm nodes r vs h) (
            upgrade_chosen true after r now (moved-IsReady nodes r vs h rv cv ra ne)
            ∙ restore_backup-calm now after cv.ne_nil),
        restored_versions vs.current after cv,
      )
