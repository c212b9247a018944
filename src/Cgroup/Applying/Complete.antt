-- ===== src/Cgroup/Applying/Complete.antt =====
-- An entry that cannot be applied does not keep the others from being tried.
use planet.Cgroup.{CgroupConfig, CgroupEntry}
use planet.Strings.{has_suffix}
use planet.Trace.{ok, Error, Result, err}
use planet.Cgroup.Applying.{finish, gathered, apply_config, is_error, Applied, apply_entries}
use planet.Base.{
  ◌≡◌, refl, sym, ap, ◌∙◌, Bool, false, ◌||◌, Option, List, [], ◌∷◌, ◌++◌, append_assoc, append-nil,
  arith, if◌then◌else◌, codes, is_empty, All,
}

abbrev pub HasPath : CgroupEntry → Type 0
HasPath e = is_empty e.path ≡ false

-- Whether one of the entries cannot be applied.
pub some_fails :
    (CgroupEntry → Option Error) → (CgroupEntry → Option Error) → List CgroupEntry → Bool
some_fails systemd v1 [] = false
some_fails systemd v1 (e ∷ es) =
    is_error (if has_suffix (codes ".slice") e.path then systemd e else v1 e)
    || some_fails systemd v1 es

or_false : (a : Bool) → (a || false) ≡ a
or_false a = ground arith

or_assoc : (a b c : Bool) → ((a || b) || c) ≡ (a || (b || c))
or_assoc a b c = ground arith

apply_entries-tried :
    (systemd v1 : CgroupEntry → Option Error) (es : List CgroupEntry) (a : Applied)
    → All HasPath es
    → ((apply_entries systemd v1 es a).0 ≡ ok tt)
      × ((apply_entries systemd v1 es a).1.tried ≡ a.tried ++ es)
      × ((apply_entries systemd v1 es a).1.failed ≡ (a.failed || some_fails systemd v1 es))
unfolding apply_entries some_fails
apply_entries-tried systemd v1 [] a h = (refl, sym (append-nil a.tried), sym (or_false a.failed))
apply_entries-tried systemd v1 (e ∷ es) a h =
    let applied = if has_suffix (codes ".slice") e.path then systemd e else v1 e in
    let next : Applied = record {
      tried = a.tried ++ e ∷ [];
      failed = a.failed || is_error applied;
    } in
    let ih = apply_entries-tried systemd v1 es next h.1 in
    rw h.0 (
      ih.0,
      ih.1 ∙ append_assoc a.tried (e ∷ []) es,
      ih.2 ∙ or_assoc a.failed (is_error applied) (some_fails systemd v1 es),
    )

finish_ok :
    (reserved : Option Error) (out : Result (Unit {0}) × Applied)
    → out.0 ≡ ok tt
    → finish reserved out ≡ (
      gathered (out.1.failed || is_error reserved),
      record { tried = out.1.tried; failed = out.1.failed || is_error reserved },
    )
unfolding finish
finish_ok reserved (ok _, a) h = refl
finish_ok reserved (err e, a) h = absurd (cc h)

-- Where the configuration is written and each entry has a path, every entry is tried in its order,
-- also behind one that fails, and an error is reported just where some entry or the reservation fails.
pub apply_config_lem :
    (write : CgroupConfig → Result (Unit {0})) (systemd v1 : CgroupEntry → Option Error)
    (reserve : CgroupConfig → Option Error) (config : CgroupConfig) (a : Applied)
    → write config ≡ ok tt
    → All HasPath config.cgroups
    → ((apply_config write systemd v1 reserve config a).1.tried ≡ a.tried ++ config.cgroups)
      × ((apply_config write systemd v1 reserve config a).0
          ≡ gathered
              ((a.failed || some_fails systemd v1 config.cgroups) || is_error (reserve config)))
unfolding apply_config
apply_config_lem write systemd v1 reserve config a w h =
    let tried = apply_entries-tried systemd v1 config.cgroups a h in
    rw (w, apply_config)
      (rw (finish_ok (reserve config) (apply_entries systemd v1 config.cgroups a) tried.0)
        (tried.1, ap (λ f. gathered (f || is_error (reserve config))) tried.2))
