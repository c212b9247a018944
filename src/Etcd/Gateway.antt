-- ===== src/Etcd/Gateway.antt =====
-- The etcd gateway of tool/planet/etcd.go: `resyncEtcdMasters` keeps the list of etcd servers in the
-- environment file of the gateway. The member list is what the etcd client answers, and `host_of`
-- is `url.Parse` with its `Host`.
pub mod Sync
use planet.Systemd.{on_disk, systemctl, Host}
use planet.Strings.Quote.{quote}
use planet.Strings.Sort.{sort_texts}
use planet.Utils.SafeFile.{safe_write}
use planet.Strings.{join}
use planet.Trace.{bad_parameter, ok, err, Exec, Result, pure, lift, ◌>>=◌, ◌>>◌}
use planet.Base.{Bool, true, false, ◌&&◌, List, [], ◌∷◌, ◌++◌, if◌then◌else◌, Text, codes, text_eq}

-- What the program reads of `etcdserverpb.Member`.
pub record Member : Type 0 where
  pub name : Text
  pub peer_urls : List Text
  pub client_urls : List Text

abbrev pub gateway_name : Text
gateway_name = codes "PLANET_ETCD_GW_ENDPOINTS"

abbrev pub synced_env_file : Text
synced_env_file = codes "/ext/etcd/etcd-synced.txt"

abbrev pub etcd_service : Text
etcd_service = codes "etcd.service"

abbrev pub add_host : Result Text → Result (List Text) → Result (List Text)
add_host (err e) _ = err e
add_host (ok h) (err e) = err e
add_host (ok h) (ok hs) = ok (h ∷ hs)

-- The first URL of each member.
unfoldable pub collect_client_urls : (Text → Result Text) → List Member → Result (List Text)
collect_client_urls host_of [] = ok []
collect_client_urls host_of (m ∷ ms) =
    let rest = collect_client_urls host_of ms in
    elim m.client_urls [ [] ↦ err bad_parameter | u ∷ _ ↦ add_host (host_of u) rest ]

unfoldable pub texts_eq : List Text → List Text → Bool
texts_eq [] [] = true
texts_eq (a ∷ as') (b ∷ bs) = text_eq a b && texts_eq as' bs
texts_eq _ _ = false

-- `etcdGateway`, and the machine it changes.
pub record Gateway : Type 0 where
  pub client_urls : List Text
  pub host : Host

abbrev pub on_host : Exec Host (Unit {0}) → Exec Gateway (Unit {0})
on_host m g = let (r, h) = m g.host in (r, record g { host = h })

abbrev pub set_client_urls : List Text → Exec Gateway (Unit {0})
set_client_urls urls g = (ok tt, record g { client_urls = urls })

-- `NAME="a,b"`, as `fmt` prints it with `%v=%q`.
abbrev pub environment_line : Text → List Text → Text
environment_line name urls = name ++ (codes "=" ++ quote (join (codes ",") urls))

-- What follows the write of the file.
unfoldable pub reload : List Text → Exec Gateway (Unit {0})
unfolding systemctl
reload urls = do on_host (systemctl (codes "restart") etcd_service); set_client_urls urls

unfoldable pub rewrite : Text → List Text → Exec Gateway (Unit {0})
unfolding join quote reload
rewrite temp urls = do
  on_host (on_disk (safe_write temp synced_env_file (environment_line gateway_name urls)))
  reload urls

unfoldable pub resync : Text → (Text → Result Text) → Result (List Member) → Exec Gateway (Unit {0})
unfolding rewrite collect_client_urls texts_eq sort_texts
resync temp host_of members g =
    (do
      list ← lift members
      urls ← lift (collect_client_urls host_of list)
      if texts_eq (sort_texts urls) g.client_urls then pure tt else rewrite temp (sort_texts urls))
      g
