-- ===== src/ClusterDns.antt =====
-- tool/planet/dns.go: the addresses of the cluster's DNS service in an environment file. What the Kubernetes
-- API answers is outside; `temp` is the name that `SafeWriteFile` takes for its temporary file.
pub mod Written
use planet.Trace.{
  pure, lift, bad_parameter, is_not_found, attempt, err, ok, Result, Exec, Error, ◌>>=◌, ◌>>◌,
}
use planet.Os.{Disk, stat}
use planet.Strings.{join}
use planet.Utils.SafeFile.{safe_write}
use planet.Base.{Bool, true, ◌||◌, List, [], ◌∷◌, ◌++◌, if◌then◌else◌, Text, codes, is_empty}

abbrev pub dns_env_file : Text
dns_env_file = codes "/run/dns.env"

-- `DNS_ADDRESSES="a,b"` and a newline.
unfoldable pub env_text : List Text → Text
unfolding join
env_text addr = codes "DNS_ADDRESSES=" ++ 34 ∷ join (codes ",") addr ++ 34 ∷ 10 ∷ []

abbrev pub may_write : Bool → Result (Unit {0}) → Bool
may_write overwrite (ok _) = overwrite
may_write overwrite (err e) = is_not_found e || overwrite

unfoldable pub write_env_dns_addresses : Text → List Text → Bool → Exec Disk (Unit {0})
unfolding stat
write_env_dns_addresses temp addr overwrite = do
  there ← attempt (stat dns_env_file)
  if may_write overwrite there then safe_write temp dns_env_file (env_text addr) else pure tt

-- A service whose address is not assigned yet is an error.
abbrev pub cluster_ip : Result Text → Result Text
cluster_ip (err e) = err e
cluster_ip (ok ip) = if is_empty ip then err bad_parameter else ok ip

-- A worker asks the service of the workers first and that of the masters second.
abbrev pub resolvers : Bool → Text → Text → List Text
resolvers is_master master worker = if is_master then master ∷ [] else worker ∷ master ∷ []

unfoldable pub update_env_dns_addresses :
    Text → Bool → Result Text → Result Text → Exec Disk (Unit {0})
update_env_dns_addresses temp is_master master worker = do
  master_ip ← lift (cluster_ip master)
  worker_ip ← lift (cluster_ip worker)
  write_env_dns_addresses temp (resolvers is_master master_ip worker_ip) true

-- `createService`, from what the client and the creation answer.
unfoldable pub create_service : Result (Unit {0}) → Result (Unit {0}) → Result (Unit {0})
create_service (err e) created = err e
create_service (ok _) (err Error.already_exists) = ok tt
create_service (ok _) created = created

-- What the API answers in one attempt.
pub record Answers : Type 0 where
  pub scheduler_client : Result (Unit {0})
  pub create_master : Result (Unit {0})
  pub create_worker : Result (Unit {0})
  pub get_master : Result Text
  pub get_worker : Result Text

-- One attempt of `setupResolver`; only a master creates the services.
unfoldable pub resolve_once : Text → Bool → Answers → Exec Disk (Unit {0})
unfolding create_service
resolve_once temp is_master a = do
  lift (if is_master then create_service a.scheduler_client a.create_master else ok tt)
  lift (if is_master then create_service a.scheduler_client a.create_worker else ok tt)
  update_env_dns_addresses temp is_master a.get_master a.get_worker
