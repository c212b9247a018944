-- ===== src/Etcd/Upgrade/Interrupted.antt =====
-- An upgrade that fails while it writes the version file, and is run again.
use planet.Os.{calm, file, directory, update, Fault, Node}
use planet.Trace.{not_found, Error, ok, err, Result}
use planet.Etcd.Version.{
  parse_version, current_version_file, write_environment, store_base, release_file, assume_version,
  Versions,
}
use planet.Etcd.Upgrade.{switch_version, upgrade, move_to}
use planet.Env.{EnvVars}
use planet.Etcd.Version.Reading.{IsVersion}
use planet.Etcd.Version.RoundTrip.{
  versions_in-cong, read_version-step, versions_in-file, versions_in,
}
use planet.Etcd.Upgrade.Rollback.{upgrade_lem, IsReady}
use planet.Os.Laws.{update_twice}
use planet.Base.{
  ◌≡◌, refl, ap, ◌∙◌, false, Option, none, some, List, [], ◌∷◌, arith, Text, text_eq, text_eq_refl,
  text_eq_sym,
}

-- The disk is full when the first setting is written: the call fails with nothing written.
abbrev pub full_at_write : Error → List (Option Fault)
full_at_write e =
    none
    ∷ none
    ∷ none
    ∷ none
    ∷ none
    ∷ none
    ∷ some (record { error = e; done = 0; kept = λ q. false })
    ∷ []

abbrev made : (Text → Option Node) → Text → Option Node
made nodes =
    update nodes store_base (some (elim (nodes store_base) [ some n ↦ n | none ↦ directory ]))

abbrev cut_off : (Text → Option Node) → Text → Option Node
cut_off nodes = update (made nodes) current_version_file (some (file []))

write-full :
    (nodes : Text → Option Node) (r vs : Versions) (e : Error)
    → text_eq r.current assume_version ≡ false
    → text_eq vs.current r.current ≡ false
    → move_to r.current vs (record {
      nodes = nodes;
      faults = none ∷ none ∷ some (record { error = e; done = 0; kept = λ q. false }) ∷ [];
    })
      ≡ (err e, calm (cut_off nodes))
unfolding move_to write_environment text_eq
write-full nodes r vs e ra ne = rw ne (
    rw ra (
      ap (λ n. (err e, calm n))
        (update_twice (made nodes) current_version_file (some (file [])) (some (file [])))))

assume-IsVersion : IsVersion assume_version
assume-IsVersion = record {
  ne_nil = λ e. cc;
  no_newline = omega arith;
  no_return = omega arith;
  fits = omega arith;
}

cut_off_versions :
    (nodes : Text → Option Node)
    → (versions_in (cut_off nodes) current_version_file ≡ err not_found)
      × (versions_in (cut_off nodes) release_file ≡ versions_in nodes release_file)
unfolding parse_version text_eq
cut_off_versions nodes = (
  versions_in-file (cut_off nodes) current_version_file [] refl,
  versions_in-cong (cut_off nodes) nodes release_file refl,
)

module _ (vars : EnvVars) (status : Text → Result Text) (nodes : Text → Option Node)
    (r vs : Versions) (h : IsReady vars status nodes r vs) (rv : IsVersion r.current)
    (ra : text_eq r.current assume_version ≡ false)
    (ne : text_eq vs.current r.current ≡ false) where
  stopped :
      (t u : Text) (e : Error)
      → nodes release_file ≡ some (file t)
      → nodes current_version_file ≡ some (file u)
      → upgrade (ok vars) status false (record { nodes = nodes; faults = full_at_write e })
        ≡ (err e, calm (cut_off nodes))
  unfolding upgrade switch_version
  stopped t u e ht hu = rw h.no_proxy (
      rw h.down (
        rw (read_version-step release_file t nodes _ ht) (
          rw h.release (
            rw (read_version-step current_version_file u nodes _ hu)
              (rw h.found (write-full nodes r vs e ra ne))))))

  -- If the disk is full when the version file is written, the upgrade fails and leaves that file empty,
  -- and a second run with no failing call succeeds and records the assumed version as the backup,
  -- whatever version the node had.
  pub interrupted_upgrade :
      (t u : Text) (e : Error)
      → nodes release_file ≡ some (file t)
      → nodes current_version_file ≡ some (file u)
      → (stop after : Text → Option Node) × (upgrade
            (ok vars)
            status
            false
            (record { nodes = nodes; faults = full_at_write e })
          ≡ (err e, calm stop))
        × (stop current_version_file ≡ some (file []))
        × (upgrade (ok vars) status false (calm stop) ≡ (ok tt, calm after))
        × (versions_in after current_version_file
            ≡ ok (record { current = r.current; prev = assume_version }))
  interrupted_upgrade t u e ht hu =
      let lost : Versions = record { current = assume_version; prev = [] } in
      let facts = cut_off_versions nodes in
      let ready : IsReady vars status (cut_off nodes) r lost = record {
        no_proxy = h.no_proxy;
        down = h.down;
        release = facts.1 ∙ h.release;
        found = rw facts.0 refl;
      } in
      let again =
        upgrade_lem vars status (cut_off nodes) r lost ready rv assume-IsVersion ra
          (text_eq_sym r.current assume_version ra) in
      (
        cut_off nodes,
        again.0,
        stopped t u e ht hu,
        rw (text_eq_refl current_version_file) refl,
        again.1,
        again.2,
      )
