-- ===== src/Etcd/Join/Peers.antt =====
-- What `etcdInitJoinImpl` writes.
use planet.Etcd.Gateway.{synced_env_file, environment_line, Member}
use planet.Etcd.Join.{
  init_join, member_name_name, public_ip_name, peer_url, initial_cluster_name, Join, join_cluster,
  peer_entry, has_url, member_peer_list,
}
use planet.Env.{get, EnvVars}
use planet.Trace.{Error, Result, err, ok}
use planet.Utils.SafeFile.{safe_write-atomic}
use planet.Os.{file}
use planet.Base.{
  ◌≡◌, refl, ◌≢◌, ◌⊎◌, inl, inr, Bool, true, false, some, List, [], ◌∷◌, ◌++◌, append-nil, arith,
  if◌then◌else◌, Text, text_eq, text_eq_refl, is_empty,
}

-- A list that ends with a member whose one URL is this node's is found to hold it, and its entry
-- stands last, under the name that etcd gives the member.
pub member_peer_list-last :
    (url name : Text) (urls : List Text) (ms : List Member)
    → member_peer_list url
        (ms ++ record { name = name; peer_urls = url ∷ []; client_urls = urls } ∷ [])
      ≡ (true, (member_peer_list url ms).1 ++ peer_entry name url ∷ [])
unfolding member_peer_list has_url
member_peer_list-last url name urls [] = rw text_eq_refl refl
member_peer_list-last url name urls (m ∷ ms) =
    ground (arith, member_peer_list-last url name urls ms)

abbrev pub own_url : EnvVars → Text
own_url env = peer_url (get env public_ip_name)

-- What is left to add where the node is not a member.
abbrev pub unless_found : Bool → Text → List Text
unless_found found x = if found then [] else x ∷ []

abbrev pub cluster_line : List Text → Text
cluster_line peers = environment_line initial_cluster_name peers

-- The node is asked for as a member just where it is none. Then the file is as it was and an error is
-- reported, or the file names the cluster with it.
abbrev pub Joined : EnvVars → Bool × List Text → Join → Result (Unit {0}) × Join → Type 0
Joined env (found, peers) j out =
    (out.1.added ≡ j.added ++ unless_found found (own_url env))
    × (((out.0 ≢ ok tt) × (out.1.disk.nodes synced_env_file ≡ j.disk.nodes synced_env_file))
        ⊎ ((out.0 ≡ ok tt)
            × (out.1.disk.nodes synced_env_file
                ≡ some (
                    file (
                      cluster_line (
                        peers
                        ++ unless_found found
                            (peer_entry (get env member_name_name) (own_url env))))))))

join_cluster_lem :
    (temp : Text) (answer : Result (Unit {0})) (env : EnvVars) (l : Bool × List Text) (j : Join)
    → text_eq temp synced_env_file ≡ false
    → Joined env l j (join_cluster temp answer env (own_url env) l j)
unfolding join_cluster
join_cluster_lem temp answer env (true, peers) j h =
    grind (arith, append-nil, safe_write-atomic temp synced_env_file (cluster_line peers) h j.disk)
join_cluster_lem temp (err e) env (false, peers) j h = (refl, inl ((λ z. cc), refl))
join_cluster_lem temp (ok tt) env (false, peers) j h =
    let line = cluster_line (peers ++ peer_entry (get env member_name_name) (own_url env) ∷ []) in
    grind (arith, safe_write-atomic temp synced_env_file line h j.disk)

-- Where the node has a public address and the client answers: either `Joined` holds for the members
-- that etcd has, or the list itself could not be had and nothing was done.
pub init_join_lem :
    (temp : Text) (members : Result (List Member)) (answer : Result (Unit {0})) (env : EnvVars)
    (j : Join)
    → text_eq temp synced_env_file ≡ false
    → is_empty (get env public_ip_name) ≡ false
    → ((e : Error) × (members ≡ err e) × (init_join temp (ok tt) members answer env j ≡ (err e, j)))
      ⊎ ((ms : List Member) × (members ≡ ok ms)
          × Joined env
              (member_peer_list (own_url env) ms)
              j
              (init_join temp (ok tt) members answer env j))
unfolding init_join
init_join_lem temp (err e) answer env j h ip = rw ip (inl (e, refl, refl))
init_join_lem temp (ok ms) answer env j h ip =
    rw ip (inr (ms, refl, join_cluster_lem temp answer env (member_peer_list (own_url env) ms) j h))

-- An attempt after this node was added already, when etcd lists it last under some name: no member
-- is asked for, and the file, where it is written, holds the node under that name.
pub init_join_again :
    (temp name : Text) (urls : List Text) (ms : List Member) (answer : Result (Unit {0}))
    (env : EnvVars) (j : Join)
    → text_eq temp synced_env_file ≡ false
    → is_empty (get env public_ip_name) ≡ false
    → Joined env
        (true, (member_peer_list (own_url env) ms).1 ++ peer_entry name (own_url env) ∷ [])
        j
        (init_join temp
          (ok tt)
          (ok (ms ++ record { name = name; peer_urls = own_url env ∷ []; client_urls = urls } ∷ []))
          answer
          env
          j)
unfolding init_join
init_join_again temp name urls ms answer env j h ip = rw ip (
    rw (member_peer_list-last (own_url env) name urls ms) (
      join_cluster_lem temp answer env
        (true, (member_peer_list (own_url env) ms).1 ++ peer_entry name (own_url env) ∷ []) j h))
