-- ===== src/Etcd/Gateway/Sync.antt =====
-- What `resyncEtcdMasters` guarantees.
use planet.Trace.{Error, ok, Result}
use planet.Strings.Sort.{sort_texts}
use planet.Etcd.Gateway.{
  reload, resync, collect_client_urls, Member, synced_env_file, Gateway, gateway_name, etcd_service,
  environment_line, texts_eq, rewrite,
}
use planet.Utils.SafeFile.{safe_write, safe_write-atomic}
use planet.Systemd.{Command}
use planet.Os.{Disk, file}
use planet.Utils.Retry.{result_cases}
use planet.Base.{
  ◌≡◌, refl, ◌≢◌, ◌↔◌, ◌⊎◌, inl, inr, true, false, Option, none, some, List, [], ◌∷◌, ◌++◌, arith,
  Bool-cases, Text, codes, text_eq, text_eq_iff,
}

abbrev pub restart : Command
restart = record { verb = codes "restart"; unit = etcd_service }

texts_eq_iff : (a b : List Text) → (texts_eq a b ≡ true) ↔ (a ≡ b)
unfolding texts_eq
texts_eq_iff (x ∷ a) (y ∷ b) = ground (arith, text_eq_iff x y, texts_eq_iff a b)
texts_eq_iff _ _ = ground arith

abbrev pub gateway_line : List Text → Text
gateway_line urls = environment_line gateway_name urls

-- The new list is in the file, etcd was restarted once and the list is kept; or an error is reported
-- and the old list is kept.
abbrev pub Published : List Text → Gateway → Result (Unit {0}) × Gateway → Type 0
Published urls g out =
    ((out.0 ≡ ok tt)
      × (out.1.client_urls ≡ urls)
      × (out.1.host.disk.nodes synced_env_file ≡ some (file (gateway_line urls)))
      × (out.1.host.commands ≡ g.host.commands ++ restart ∷ []))
    ⊎ ((out.0 ≢ ok tt) × (out.1.client_urls ≡ g.client_urls))

restart_lem :
    (urls old : List Text) (disk : Disk) (commands : List Command) (answers : List (Option Error))
    → disk.nodes synced_env_file ≡ some (file (gateway_line urls))
    → let g : Gateway = record {
      client_urls = old;
      host = record { disk = disk; commands = commands; answers = answers };
    } in
      Published urls g (reload urls g)
unfolding reload
restart_lem urls old disk commands [] h = inl (refl, refl, h, refl)
restart_lem urls old disk commands (none ∷ _) h = inl (refl, refl, h, refl)
restart_lem urls old disk commands (some e ∷ _) h = inr ((λ q. cc), refl)

rewrite_lem :
    (temp : Text) (urls : List Text) (g : Gateway)
    → text_eq temp synced_env_file ≡ false
    → Published urls g (rewrite temp urls g)
unfolding rewrite
rewrite_lem temp urls g h =
    let line = gateway_line urls in
    elim (safe_write-atomic temp synced_env_file line h g.host.disk) [
      | inl (e, f) ↦ rw e (
          restart_lem urls g.client_urls (safe_write temp synced_env_file line g.host.disk).1
            g.host.commands g.host.answers f)
      | inr (e, _) ↦ elim (result_cases (safe_write temp synced_env_file line g.host.disk).0) [
        | inl q ↦ absurd (e q)
        | inr (x, q) ↦ rw q (inr ((λ z. cc), refl))
      ]
    ]

-- Where the servers are known: either nothing has changed and nothing is done; or something has, and the
-- file of the gateway holds the sorted servers, etcd was restarted once and the list is kept; or an error is
-- reported and the old list is kept, so the next tick tries again.
pub resync_lem :
    (temp : Text) (host_of : Text → Result Text) (ms : List Member) (urls : List Text) (g : Gateway)
    → text_eq temp synced_env_file ≡ false
    → collect_client_urls host_of ms ≡ ok urls
    → ((sort_texts urls ≡ g.client_urls) × (resync temp host_of (ok ms) g ≡ (ok tt, g)))
      ⊎ ((sort_texts urls ≢ g.client_urls)
          × Published (sort_texts urls) g (resync temp host_of (ok ms) g))
unfolding resync
resync_lem temp host_of ms urls g h e =
    elim (Bool-cases (texts_eq (sort_texts urls) g.client_urls)) [
      | inl q ↦ inl ((texts_eq_iff (sort_texts urls) g.client_urls).0 q, rw e (rw q refl))
      | inr q ↦ inr (
        (λ same. cc (q, (texts_eq_iff (sort_texts urls) g.client_urls).1 same)),
        rw e (rw q (rewrite_lem temp (sort_texts urls) g h)),
      )
    ]
