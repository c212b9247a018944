-- ===== src/Tests/Cluster.antt =====
-- A cluster of two members: the gateway learns of both, and a third node joins.
use planet.Etcd.Gateway.{resync, Gateway, synced_env_file, collect_client_urls, Member}
use planet.Env.{EnvVars, get}
use planet.Strings.Sort.{text_leb, sort_texts}
use planet.Os.{calm, Disk}
use planet.Etcd.Join.{
  init_join, peer_entry, member_name_name, member_peer_list, public_ip_name, Join,
}
use planet.Trace.{err, ok, Error}
use planet.Etcd.Join.Peers.{init_join_again, init_join_lem, own_url, Joined}
use planet.Etcd.Gateway.Sync.{resync_lem, Published}
use planet.Base.{
  ◌≡◌, refl, ◌≢◌, ◌⊎◌, true, false, none, List, [], ◌∷◌, ◌++◌, Text, codes, text_eq, is_empty,
}

abbrev first : Member
first = record {
  name = codes "one";
  peer_urls = codes "https://10.0.0.1:2380" ∷ [];
  client_urls = codes "10.0.0.1:2379" ∷ [];
}

abbrev second : Member
second = record {
  name = codes "two";
  peer_urls = codes "https://10.0.0.2:2380" ∷ [];
  client_urls = codes "10.0.0.2:2379" ∷ [];
}

abbrev members : List Member
members = second ∷ first ∷ []

abbrev hosts : List Text
hosts = codes "10.0.0.2:2379" ∷ codes "10.0.0.1:2379" ∷ []

abbrev blank : Disk
blank = calm λ q. none

abbrev start : Gateway
start = record { client_urls = []; host = record { disk = blank; commands = []; answers = [] } }

abbrev temp : Text
temp = codes "/ext/etcd/safewrite1"

temp-ne-synced : text_eq temp synced_env_file ≡ false
unfolding text_eq
temp-ne-synced = refl

hosts_known : collect_client_urls ok members ≡ ok hosts
unfolding collect_client_urls
hosts_known = refl

resync_example :
    ((sort_texts hosts ≡ start.client_urls) × (resync temp ok (ok members) start ≡ (ok tt, start)))
    ⊎ ((sort_texts hosts ≢ start.client_urls)
        × Published (sort_texts hosts) start (resync temp ok (ok members) start))
resync_example = resync_lem temp ok members hosts start temp-ne-synced hosts_known

hosts_sorted : sort_texts hosts ≡ codes "10.0.0.1:2379" ∷ codes "10.0.0.2:2379" ∷ []
unfolding sort_texts text_leb
hosts_sorted = refl

abbrev env : EnvVars
env =
    record { name = public_ip_name; val = codes "10.0.0.3" }
    ∷ record { name = member_name_name; val = codes "three" }
    ∷ []

abbrev joining : Join
joining = record { disk = blank; added = [] }

ip_known : is_empty (get env public_ip_name) ≡ false
unfolding get text_eq
ip_known = refl

init_join_example :
    ((e : Error) × (ok members ≡ err e)
      × (init_join temp (ok tt) (ok members) (ok tt) env joining ≡ (err e, joining)))
    ⊎ ((ms : List Member) × (ok members ≡ ok ms)
        × Joined env
            (member_peer_list (own_url env) ms)
            joining
            (init_join temp (ok tt) (ok members) (ok tt) env joining))
init_join_example = init_join_lem temp (ok members) (ok tt) env joining temp-ne-synced ip_known

-- etcd lists a member that has not started without a name.
init_join_again_example :
    Joined env
      (true, (member_peer_list (own_url env) members).1 ++ peer_entry [] (own_url env) ∷ [])
      joining
      (init_join temp
        (ok tt)
        (ok (members ++ record { name = []; peer_urls = own_url env ∷ []; client_urls = [] } ∷ []))
        (ok tt)
        env
        joining)
init_join_again_example =
    init_join_again temp [] [] members (ok tt) env joining temp-ne-synced ip_known
