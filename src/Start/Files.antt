-- ===== src/Start/Files.antt =====
-- The files and mounts that tool/planet/start.go gives the container: `addResolv`, `readHostResolv`,
-- `copyResolvFile`, `setCoreDNS`, `setHosts` with `WriteHosts` of lib/utils/utils.go, `mountSecrets`, and
-- the options of the kubelet. The path that Go's `filepath.EvalSymlinks` finds is an argument, and so are
-- the YAML, JSON and merging libraries that the kubelet's configuration goes through.
use planet.Base.{
  ℕ, true, false, Option, none, some, List, [], ◌∷◌, ◌++◌, if◌then◌else◌, Text, codes, is_empty,
}
use planet.Box.Files.{File}
use planet.Box.Mounts.{Mount, Mounts}
use planet.Box.Overrides.{Overrides}
use planet.Env.{append}
use planet.Os.{Disk, open_file, read, create, write}
use planet.Resolver.{DnsConfig, read_config, to_string}
use planet.Start.{Config}
use planet.Start.CoreDns.{generate_core_dns_config}
use planet.Start.Resolv.{Slice, elements, add_resolv}
use planet.Strings.{is_space, has_prefix}
use planet.Trace.{Error, Result, ok, err, is_not_found, Exec, pure, raise, lift, ◌>>=◌, ◌>>◌}

-- What `start` changes on its way: the configuration with its environments, the disk, the mounts and files
-- for the container, and the slice of listen addresses.
pub record Assembly : Type 0 where
  pub config : Config
  pub disk : Disk
  pub mounts : Mounts
  pub files : List File
  pub addrs : Slice

abbrev pub on_disk : {A : Type 0} → Exec Disk A → Exec Assembly A
on_disk m s = let (r, d) = m s.disk in (r, record s { disk = d })

abbrev pub add_mount : Mount → Exec Assembly (Unit {0})
add_mount m s = (ok tt, record s { mounts = s.mounts ++ m ∷ [] })

abbrev pub add_file : File → Exec Assembly (Unit {0})
add_file f s = (ok tt, record s { files = s.files ++ f ∷ [] })

-- `&utils.DNSConfig{}`
abbrev no_config : DnsConfig
no_config = record {
  servers = [];
  domain = [];
  search = [];
  ndots = 0;
  timeout = 0;
  attempts = 0;
  rotate = false;
  unknown_opt = false;
  lookup = [];
}

-- A reader that fails ends the scan with its error.
config_of : Text × Option Error → Result DnsConfig
unfolding read_config
config_of (t, none) = read_config t
config_of (t, some e) = err e

-- The host's configuration, empty where there is none.
unfoldable pub read_host_resolv : Result Text → Exec Disk DnsConfig
unfolding config_of
read_host_resolv (err e) = if is_not_found e then pure no_config else raise e
read_host_resolv (ok path) = do t ← open_file path; got ← read t; lift (config_of got)

-- A file is created or emptied, and written: `os.OpenFile` with `O_CREATE` and `O_TRUNC`, or
-- `ioutil.WriteFile`.
unfoldable pub write_text : Text → Text → Exec Disk (Unit {0})
unfolding create write
write_text path t = do create path; write path t

abbrev pub planet_resolv : Text
planet_resolv = codes "/etc/resolv.gravity.conf"

abbrev pub resolv_mount : Text → Mount
resolv_mount rootfs = record {
  src = rootfs ++ planet_resolv;
  dst = codes "/etc/resolv.conf";
  readonly = true;
  skip_if_missing = false;
  recursive = false;
}

-- The servers are taken from the slice of listen addresses, whose array may change.
abbrev take_servers : DnsConfig → Exec Assembly DnsConfig
take_servers conf s = let (c, a) = add_resolv conf s.addrs in (ok c, record s { addrs = a })

-- `addResolv` with its files; the servers of the host are returned.
unfoldable pub add_resolv_file : Result Text → Text → Exec Assembly (List Text)
unfolding add_resolv
add_resolv_file found rootfs = do
  conf ← on_disk (read_host_resolv found)
  changed ← take_servers conf
  on_disk (write_text (rootfs ++ planet_resolv) (to_string changed))
  add_mount (resolv_mount rootfs)
  pure conf.servers

-- `DNS` of `Config`, less the listen addresses.
pub record Dns : Type 0 where
  pub hosts : Overrides
  pub zones : Overrides
  pub port : ℕ

abbrev pub core_dns_conf : Text
core_dns_conf = codes "/etc/coredns/coredns.conf"

abbrev core_dns_text : Dns → DnsConfig → Slice → Text
core_dns_text dns resolv addrs = generate_core_dns_config (record {
  zones = dns.zones;
  hosts = dns.hosts;
  listen_addrs = elements addrs;
  port = dns.port;
  upstream_nameservers = resolv.servers;
  rotate = resolv.rotate;
})

unfoldable pub set_core_dns : Result Text → Text → Dns → Exec Assembly (Unit {0})
set_core_dns found rootfs dns = do
  resolv ← on_disk (read_host_resolv found)
  λ s. on_disk (write_text (rootfs ++ core_dns_conf) (core_dns_text dns resolv s.addrs)) s

-- `HostEntry`
pub record HostEntry : Type 0 where
  pub hostnames : Text
  pub ip : Text

-- `WriteHosts` to a buffer, which takes every write.
unfoldable pub write_hosts : List HostEntry → Text
write_hosts [] = []
write_hosts (e ∷ es) = e.ip ++ (codes " " ++ (e.hostnames ++ (codes "\n" ++ write_hosts es)))

abbrev pub shared_file : Text → Text → File
shared_file path t = record { path = path; contents = t; has_mode = true; has_owners = false }

unfoldable pub set_hosts : List HostEntry → Exec Assembly (Unit {0})
unfolding write_hosts
set_hosts entries = add_file (shared_file (codes "/etc/hosts") (write_hosts entries))

-- The two entries that `start` gives.
abbrev pub local_hosts : List HostEntry
local_hosts =
    record {
      ip = codes "127.0.0.1";
      hostnames = codes "localhost localhost.localdomain localhost4 localhost4.localdomain4";
    }
    ∷ record {
      ip = codes "::1";
      hostnames = codes "localhost localhost.localdomain localhost6 localhost6.localdomain6";
    }
    ∷ []

unfoldable pub set_hostname : Text → Exec Assembly (Unit {0})
set_hostname hostname =
    if is_empty hostname then pure tt else add_file (shared_file (codes "/etc/hostname") hostname)

abbrev pub secrets_mount : Text → Mount
secrets_mount dir = record {
  src = dir;
  dst = codes "/var/state";
  readonly = true;
  skip_if_missing = false;
  recursive = false;
}

unfoldable pub mount_secrets : Text → Exec Assembly (Unit {0})
mount_secrets dir = add_mount (secrets_mount dir)

trim_left_space : Text → Text
trim_left_space [] = []
trim_left_space (c ∷ cs) = if is_space c then trim_left_space cs else c ∷ cs

-- `ToJSON`: what looks like JSON stays.
unfoldable pub to_json : (Text → Result Text) → Text → Result Text
unfolding trim_left_space has_prefix is_space
to_json yaml_to_json t = if has_prefix (codes "{") (trim_left_space t) then ok t else yaml_to_json t

-- What the program calls for the configuration of the kubelet, a value of the type `K`.
pub record KubeletLibrary (K : Type 0) : Type 0 where
  pub decode : Text → Result Text
  pub yaml_to_json : Text → Result Text
  pub unmarshal : Text → Result K
  -- `mergo.Merge` with the second configuration over the first.
  pub merge : K → K → Result K
  pub clear_read_only_port : K → K
  pub marshal : K → Result Text
  pub default_config : K
  pub overrides : K

abbrev and_then : {A B : Type 0} → Result A → (A → Result B) → Result B
and_then (ok a) f = f a
and_then (err e) f = err e

module _ {K : Type 0} (lib : KubeletLibrary K) where
  unfoldable pub apply_config_overrides : K → Result K
  apply_config_overrides k = elim (lib.merge k lib.overrides) [
    | err e ↦ err e
    | ok m ↦ ok (lib.clear_read_only_port m)
  ]

  -- The configuration of the command line over the default one, and the overrides over both.
  unfoldable pub kubelet_config : Text → Result K
  unfolding apply_config_overrides to_json
  kubelet_config given =
      if is_empty given
      then ok lib.default_config
      else and_then (lib.decode given) λ decoded.
        and_then (to_json lib.yaml_to_json decoded) λ json.
          and_then (lib.unmarshal json)
            λ external. and_then (lib.merge lib.default_config external) apply_config_overrides

  abbrev kubelet_text : Text → Result Text
  kubelet_text given = and_then (kubelet_config given) lib.marshal

  unfoldable pub set_options : Text → Exec Assembly (Unit {0})
  unfolding append
  set_options options s = (
    ok tt,
    record s {
      config = record s.config {
        env =
            if is_empty options
            then s.config.env
            else append s.config.env (codes "KUBE_KUBELET_FLAGS") options;
      };
    },
  )

  unfoldable pub add_kubelet_options : Text → Text → Exec Assembly (Unit {0})
  unfolding set_options kubelet_config
  add_kubelet_options options given = do
    set_options options
    t ← lift (kubelet_text given)
    add_file (shared_file (codes "/etc/kubernetes/kubelet.yaml") t)
