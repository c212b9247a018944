-- ===== src/ClusterDns/Written.antt =====
-- What the environment file of the cluster's DNS service holds.
use planet.Trace.{err, continue, ok, Result}
use planet.ClusterDns.{
  may_write, resolvers, env_text, cluster_ip, dns_env_file, write_env_dns_addresses,
  update_env_dns_addresses,
}
use planet.Os.{Node, Disk, file, stat}
use planet.Utils.SafeFile.{safe_write-atomic}
use planet.Base.{
  ◌≡◌, refl, ◌∙◌, ◌≢◌, ◌⊎◌, inl, inr, Bool, true, false, Option, some, List, arith, Text, text_eq,
}

stat-nodes : (p q : Text) (d : Disk) → (stat p d).1.nodes q ≡ d.nodes q
unfolding stat
stat-nodes p q d = ground arith

may_write-true : (r : Result (Unit {0})) → may_write true r ≡ true
may_write-true (ok _) = refl
may_write-true (err e) = ground arith

module _ (temp : Text) (is_master : Bool) (differ : text_eq temp dns_env_file ≡ false) where
  -- The file holds a text and all is well, or it is as before and something failed.
  Holds : Text → (Text → Option Node) → Result (Unit {0}) × Disk → Type 0
  Holds t before r =
      ((r.0 ≡ ok tt) × (r.1.nodes dns_env_file ≡ some (file t)))
      ⊎ ((r.0 ≢ ok tt) × (r.1.nodes dns_env_file ≡ before dns_env_file))

  write_env_dns_addresses-Holds :
      (addr : List Text) (d : Disk)
      → Holds (env_text addr) d.nodes (write_env_dns_addresses temp addr true d)
  unfolding write_env_dns_addresses Holds
  write_env_dns_addresses-Holds addr d =
      rw (may_write-true (stat dns_env_file d).0)
        (elim (safe_write-atomic temp dns_env_file (env_text addr) differ (stat dns_env_file d).1) [
          | inl good ↦ inl good
          | inr (bad, same) ↦ inr (bad, same ∙ stat-nodes dns_env_file dns_env_file d)
        ])

  -- The update, from what the two addresses turn out to be.
  Updated : Result Text → Result Text → Disk → Result (Unit {0}) × Disk → Type 0
  Updated master worker d r =
      ((m w : Text) × (master ≡ ok m)
        × (worker ≡ ok w)
        × (r.0 ≡ ok tt)
        × (r.1.nodes dns_env_file ≡ some (file (env_text (resolvers is_master m w)))))
      ⊎ ((r.0 ≢ ok tt) × (r.1.nodes dns_env_file ≡ d.nodes dns_env_file))

  update-Updated :
      (master worker : Result Text) (d : Disk)
      → Updated master worker d (
          continue master
            (λ m.
              continue worker (λ w. write_env_dns_addresses temp (resolvers is_master m w) true))
            d)
  unfolding Updated Holds
  update-Updated (err e) worker d = inr ((λ h. absurd (cc h)), refl)
  update-Updated (ok m) (err e) d = inr ((λ h. absurd (cc h)), refl)
  update-Updated (ok m) (ok w) d =
      elim (write_env_dns_addresses-Holds (resolvers is_master m w) d) [
        | inl (good, holds) ↦ inl (m, w, refl, refl, good, holds)
        | inr bad ↦ inr bad
      ]

  -- An update that succeeds has read an address of both services, and the file holds that of the masters
  -- on a master, and that of the workers and then that of the masters on a worker. One that fails leaves
  -- the file as it was.
  update_env_dns_addresses_lem :
      (master worker : Result Text) (d : Disk)
      → ((m w : Text) × (cluster_ip master ≡ ok m)
          × (cluster_ip worker ≡ ok w)
          × ((update_env_dns_addresses temp is_master master worker d).0 ≡ ok tt)
          × ((update_env_dns_addresses temp is_master master worker d).1.nodes dns_env_file
              ≡ some (file (env_text (resolvers is_master m w)))))
        ⊎ (((update_env_dns_addresses temp is_master master worker d).0 ≢ ok tt)
            × ((update_env_dns_addresses temp is_master master worker d).1.nodes dns_env_file
                ≡ d.nodes dns_env_file))
  unfolding update_env_dns_addresses Updated
  update_env_dns_addresses_lem master worker d =
      update-Updated (cluster_ip master) (cluster_ip worker) d
