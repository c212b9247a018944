-- ===== src/Etcd/Join.antt =====
-- Joining an etcd cluster, tool/planet/etcd.go: `etcdMemberPeerList` and `etcdInitJoinImpl`. What the
-- etcd client answers is an argument: whether it could be made, the member list, and the error of
-- an added member. The requests made to it are in the state.
pub mod Peers
use planet.Os.{Disk}
use planet.Utils.SafeFile.{safe_write}
use planet.Env.{EnvVars, get}
use planet.Strings.{join}
use planet.Strings.Quote.{quote}
use planet.Etcd.Gateway.{Member, environment_line, synced_env_file}
use planet.Trace.{bad_parameter, Exec, Result, lift, raise, ◌>>=◌, ◌>>◌}
use planet.Base.{
  Bool, true, false, ◌||◌, List, [], ◌∷◌, ◌++◌, if◌then◌else◌, Text, codes, text_eq, is_empty,
}

abbrev pub public_ip_name : Text
public_ip_name = codes "PLANET_PUBLIC_IP"

abbrev pub member_name_name : Text
member_name_name = codes "PLANET_ETCD_MEMBER_NAME"

abbrev pub initial_cluster_name : Text
initial_cluster_name = codes "ETCD_INITIAL_CLUSTER"

unfoldable pub has_url : Text → List Text → Bool
has_url url [] = false
has_url url (u ∷ us) = text_eq url u || has_url url us

abbrev pub peer_entry : Text → Text → Text
peer_entry name url = name ++ (codes "=" ++ url)

-- Whether the URL is one of the members', and the first URL of each member that has one.
unfoldable pub member_peer_list : Text → List Member → Bool × List Text
unfolding has_url
member_peer_list url [] = (false, [])
member_peer_list url (m ∷ ms) =
    let (found, urls) = member_peer_list url ms in
    elim m.peer_urls [
      | [] ↦ (found, urls)
      | u ∷ us ↦ (has_url url (u ∷ us) || found, peer_entry m.name u ∷ urls)
    ]

pub record Join : Type 0 where
  pub disk : Disk
  -- The URLs of the members that were asked for.
  pub added : List Text

abbrev pub with_disk : Exec Disk (Unit {0}) → Exec Join (Unit {0})
with_disk m j = let (r, d) = m j.disk in (r, record j { disk = d })

-- `client.MemberAdd`
abbrev pub member_add : Result (Unit {0}) → Text → Exec Join (Unit {0})
member_add answer url j = (answer, record j { added = j.added ++ url ∷ [] })

abbrev pub peer_url : Text → Text
peer_url ip = codes "https://" ++ (ip ++ codes ":2380")

-- The part that follows the member list.
unfoldable pub join_cluster :
    Text → Result (Unit {0}) → EnvVars → Text → Bool × List Text → Exec Join (Unit {0})
unfolding get join quote
join_cluster temp answer env url (true, peers) =
    with_disk (safe_write temp synced_env_file (environment_line initial_cluster_name peers))
join_cluster temp answer env url (false, peers) = do
  member_add answer url
  with_disk (
      safe_write temp synced_env_file (
        environment_line initial_cluster_name
          (peers ++ peer_entry (get env member_name_name) url ∷ [])))

unfoldable pub init_join :
    Text
    → Result (Unit {0})
    → Result (List Member)
    → Result (Unit {0})
    → EnvVars
    → Exec Join (Unit {0})
unfolding join_cluster get member_peer_list
init_join temp client members answer env = do
  lift client
  if is_empty (get env public_ip_name) then raise bad_parameter else do
    list ← lift members
    let url = peer_url (get env public_ip_name)
    join_cluster temp answer env url (member_peer_list url list)
