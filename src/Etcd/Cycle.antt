-- ===== src/Etcd/Cycle.antt =====
-- An upgrade, or an upgrade and its rollback, followed by the start of etcd (`etcdUpgrade` and
-- `etcdInit` of tool/planet/etcd.go).
use planet.Env.{EnvVars}
use mathlib.Core.Path.{subst}
use planet.Trace.{err, ok, not_found, Result}
use planet.Os.{calm, Node}
use planet.Etcd.Init.Start.{init-IsLinked, IsLinked, version_by_data, init-by_data}
use planet.Etcd.Version.{current_version_file, release_file, assume_version, Versions}
use planet.Etcd.Upgrade.Rollback.{
  moved_versions, upgrade-calm, restore_backup-calm, upgrade_chosen, restored_versions,
  moved-IsReady, IsReady,
}
use planet.Etcd.Version.Reading.{IsVersion}
use planet.Etcd.Init.{init, member_data}
use planet.Etcd.Upgrade.{current_or_assumed, upgrade}
use planet.Etcd.Version.RoundTrip.{
  versions_in-file, environment_text, parse_version-environment_text, versions_in-cong,
  environment_nodes, versions_in,
}
use planet.Etcd.Upgrade.Effect.{environment_nodes-other, moved}
use planet.Base.{
  ◌≡◌, refl, ◌∙◌, inl, inr, true, false, Option, List, [], arith, if◌then◌else◌, Bool-cases, Text,
  text_eq, text_eq_refl,
}

-- A version that is not the assumed one was read from the file.
named_version :
    (x : Result Versions) (ws : Versions)
    → text_eq ws.current assume_version ≡ false
    → current_or_assumed x ≡ ok ws
    → x ≡ ok ws
named_version (ok vs) ws ne h = h
named_version (err e) ws ne h = absurd (grind (arith, h, ne, text_eq_refl assume_version))

rolled_back : Text → (Text → Option Node) → Text → Option Node
rolled_back version nodes = environment_nodes current_version_file version [] nodes

rolled_back_release :
    (version : Text) (nodes : Text → Option Node)
    → versions_in (rolled_back version nodes) release_file ≡ versions_in nodes release_file
unfolding rolled_back text_eq
rolled_back_release version nodes =
    versions_in-cong _ nodes release_file
      (environment_nodes-other version [] release_file nodes refl refl)

-- A rollback to the assumed version leaves a version file that names none, and the data where it was.
rolled_back_unnamed :
    (version : Text) (nodes : Text → Option Node)
    → IsVersion version
    → text_eq version assume_version ≡ true
    → versions_in (rolled_back version nodes) current_version_file ≡ err not_found
unfolding rolled_back environment_nodes
rolled_back_unnamed version nodes h e =
    versions_in-file (environment_nodes current_version_file version [] nodes) current_version_file
      (environment_text version []) (rw (text_eq_refl current_version_file))
    ∙ parse_version-environment_text version [] h (λ n. absurd (n refl))
    ∙ rw e refl

rolled_back_data :
    (version : Text) (nodes : Text → Option Node)
    → rolled_back version nodes member_data ≡ nodes member_data
unfolding rolled_back text_eq
rolled_back_data version nodes = environment_nodes-other version [] member_data nodes refl refl

-- What a start runs after an upgrade from `old` to `desired` and a rollback, by the data of the assumed
-- version that is there.
abbrev pub version_back : Text → Text → Option Node → Text
version_back old desired there =
    if text_eq old assume_version then version_by_data there desired else old

module _ (under : Text → List Text) (r : Versions) (nodes : Text → Option Node) where
  init-rolled_back :
      (version : Text)
      → IsVersion version
      → versions_in nodes release_file ≡ ok r
      → IsLinked
          (version_back version r.current (nodes member_data))
          (init under (calm (rolled_back version nodes))).1
  unfolding rolled_back
  init-rolled_back version h release =
      let back = rolled_back version nodes in
      let there = rolled_back_release version nodes ∙ release in
      elim (Bool-cases (text_eq version assume_version)) [
        | inl e ↦ rw e (
            subst (λ o. IsLinked (version_by_data o r.current) (init under (calm back)).1)
              (rolled_back_data version nodes)
              (init-by_data under r back there (rolled_back_unnamed version nodes h e)))
        | inr e ↦ rw e (
            init-IsLinked under r (record { current = version; prev = [] }) back there
              (named_version (versions_in back current_version_file)
                (record { current = version; prev = [] }) e (restored_versions version nodes h)))
      ]

module _ (vars : EnvVars) (status : Text → Result Text) (under : Text → List Text) where
  -- The next start after an upgrade with no failing call runs the desired version. The next start after an
  -- upgrade and its rollback runs the version from before; where that was the assumed version and the
  -- upgrade has left no data of it, it runs the desired version, as on a new node.
  pub init-upgrade :
      (nodes : Text → Option Node) (r vs : Versions)
      → IsReady vars status nodes r vs
      → IsVersion r.current
      → IsVersion vs.current
      → text_eq r.current assume_version ≡ false
      → text_eq vs.current r.current ≡ false
      → IsLinked r.current (init under (upgrade (ok vars) status false (calm nodes)).1).1
        × IsLinked
            (version_back vs.current r.current
              ((upgrade (ok vars) status false (calm nodes)).1.nodes member_data))
            (init under
              (upgrade (ok vars) status true (upgrade (ok vars) status false (calm nodes)).1).1).1
  unfolding rolled_back
  init-upgrade nodes r vs h rv cv ra ne =
      let now : Versions = record { current = r.current; prev = vs.current } in
      let after = moved r.current vs nodes in
      let ready = moved-IsReady vars status nodes r vs h rv cv ra ne in
      let undone =
        upgrade_chosen vars status true after r now ready
        ∙ restore_backup-calm now after cv.ne_nil in
      rw (upgrade-calm vars status nodes r vs h) (
        init-IsLinked under r now after ready.release (moved_versions nodes r vs rv cv ra ne),
        rw undone (init-rolled_back under r after vs.current cv ready.release),
      )
