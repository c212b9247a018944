-- ===== src/Lib.antt =====
-- planet runs Kubernetes in a container. This library models the parts of it that decide something and
-- states what they guarantee.
--
--   Base, Strings, Trace, Os   what the program uses of Go: tests and byte strings, `strings` and `bufio`,
--                       errors, and files on a disk on which any call may fail
--   Env, Env/Flag       lib/box/cfg.go: `EnvVars`, and the parser of its flag
--   Box/Mounts, Box/Overrides   lib/box/cfg.go: `Mounts`, `DNSOverrides`
--   Box/DeviceFlags     lib/box/cfg.go: `Devices`
--   Box/EnvFile, Box/Files      lib/box/srv.go: `WriteEnvironment`, `ReadEnvironment`, `writeFile`, `checkPath`
--   Box/Devices, Box/Expansion, Box/Container   lib/box/srv.go: `getLibcontainerConfig`, with the device
--                       nodes, the mounts, and the configuration as a whole
--   Box/Boot            lib/box/srv.go: `Start`, `Close`; it writes files (Box/EnvFile, Box/Files) and makes
--                       the configuration (Box/Container)
--   Box/Enter           lib/box/enter.go: `enter`, `getContainer`; it reads an environment file
--   Box/UserCgroup      lib/box/enter.go: `setProcessUserCgroup`
--   Console             tool/planet/enter.go: `enterConsole`, `enter`, `stop`; the process is run by Box/Enter
--   Udev                tool/planet/udev.go: `loop` and the command of the container that it runs (Console);
--                       tool/planet/devices.go, which that command runs
--   Box/CgroupMounts    lib/box/cgroups_linux.go: `MountCgroups`, on the table of Check/Filesystems
--   Check               lib/check/filesystems.go (Filesystems), lib/check/check.go (Kernel)
--   ClusterDns          tool/planet/dns.go; it writes a file (Utils/SafeFile)
--   CommandLine         tool/planet/main.go: `findRootfs`, the lists of addresses, the signals
--   Utils/SafeFile, Utils/Retry lib/utils/utils.go `SafeWriteFile`, lib/utils/retry.go `Retry`
--   Etcd/Version        tool/planet/etcd.go: `readEtcdVersion`, `writeEtcdEnvironment`
--   Etcd/Upgrade        tool/planet/etcd.go: `etcdUpgrade`; it reads the environment (Env) and switches
--                       the version file (Etcd/Version)
--   Etcd/Gateway        tool/planet/etcd.go: `resyncEtcdMasters`; it writes a file (Utils/SafeFile) and runs
--                       systemctl (Systemd)
--   Etcd/Join           tool/planet/etcd.go: `etcdMemberPeerList`, `etcdInitJoinImpl`
--   Etcd/Service        tool/planet/etcd.go: `etcdDisable`, `etcdEnable` of an upgrade, `restartEtcdClients`
--   Etcd/Enable         tool/planet/etcd.go: `etcdEnable`, `etcdInitJoin`, whose attempts Utils/Retry repeats
--   Etcd/Restore        tool/planet/etcd.go: `etcdRestore`, `etcdWipe` and the waits that they use
--   Etcd/Cycle          an upgrade or a rollback (Etcd/Upgrade) and the start behind it (Etcd/Init)
--   Etcd/Init           tool/planet/etcd.go: `etcdInit`
--   Users               lib/user/user.go: the databases of users and groups;
--                       lib/check/user.go: `CheckUserGroup` (Creation);
--                       tool/planet/start.go: `addUserToContainer`, `addGroupToContainer` (Container)
--   Start               tool/planet/start.go: `configureProxy` (Proxy), the options of the components
--                       (Options), `setupEtcd` and `setupFlannel` (Services), `monitorUnits` (Monitor),
--                       the cloud options and the storage driver (Cloud), `checkRequiredMounts`
--                       (Required), the variables that `start` sets (Environment), CoreDNS (CoreDns), the
--                       configuration of kubectl (KubeConfig), the other files and mounts (Files), and
--                       `start` as a whole (Launch), up to the start of the container (Box/Boot), and
--                       `startAndWait` up to its end (Running)
--   Resolver            lib/utils/dns.go: `DNSReadConfig`, `String`
--   Start/Resolv        tool/planet/start.go: `addResolv`, `copyResolvFile`; the slices they share
--   Cgroup              tool/planet/cgroup.go: `defaultCgroupConfig`, `upsertCgroups` (Applying),
--                       `cleanSystemdScopes` and `writeKubeReservedEnvironment` (Scopes)
--   Leader              tool/planet/agent.go: the callbacks of `startLeaderClient`, and `runAgent` with the
--                       commands that pause, resume and show the leader (Agent)
--   Monitoring          lib/monitoring: `AddCheckers`, `newCertPool` (Certificates), the versions
--   Tests               the theorems at concrete inputs
--
-- State. A disk (`Os.Disk`) maps paths to nodes and holds the faults of the calls to come: each call takes
-- one entry, which lets it pass or gives the error, how many bytes a write got through, and what a removal
-- left. An operation is a function from its state to a result and the new state (`Trace.Exec`), so what was
-- changed before an error stays changed. The callbacks of the election are a step relation, since the
-- client runs them in goroutines of their own.
--
-- Bounds. Strings are lists of bytes. Numbers are natural numbers: the code's own numbers are counts
-- far below the machine's word. A scanner stops at a line of 65536 bytes, as `bufio.Scanner` does. A
-- loop runs over a list, or over the attempts left. The parser of a flag and the blocks of a
-- certificate file take fuel, one more than the bytes of the input (`Env/Flag/Ends`,
-- `Monitoring/Certificates`), and the digits of a printed number take one more than the number, which
-- `Strings/Decimal` shows to be enough. An `int` that is read is cut off at its largest value
-- (`Strings/Atoi`).
--
-- Parameters. What systemd, the etcd and election clients, Kubernetes and `cstrings.SplitComma` answer is
-- an argument of the definitions that ask for it.
--
-- Not modelled: what runc, the kernel, udev and SELinux do (their answers are arguments), the streams of
-- terminals, the health checkers themselves, flag declarations, file modes and owners, logging, and
-- vendored code.
pub mod Base
pub mod Strings
pub mod Trace
pub mod Os
pub mod Etcd
pub mod Utils
pub mod Box
pub mod Cgroup
pub mod Console
pub mod Udev
pub mod Check
pub mod ClusterDns
pub mod CommandLine
pub mod Users
pub mod Leader
mod Tests
pub mod Env
pub mod Systemd
pub mod Resolver
pub mod Start
pub mod Monitoring
