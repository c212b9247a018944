-- ===== src/Tests/CgroupMounts.antt =====
-- A host on which only the memory cgroup is mounted so far.
use planet.Box.CgroupMounts.{
  Target, MountHost, mount_cgroups, parse_host_cgroups, required_set, all_found,
  check_for_conflicts, mount_unless_there, mount_groups, mount_group, mount, link_group,
}
use planet.Box.CgroupMounts.Presence.{mount_cgroups_lem, IsThere, IsWanted}
use planet.Check.Filesystems.{Mounted}
use planet.Trace.{ok}
use planet.Os.{calm, mkdir_all}
use planet.Base.{◌≡◌, refl, true, none, List, [], ◌∷◌, ◌++◌, Text, codes, text_eq, All}

abbrev cgroups : Text
cgroups =
    codes "#subsys_name\thierarchy\tnum_cgroups\tenabled\n"
    ++ (codes "cpuset\t3\t1\t1\n"
        ++ (codes "cpu\t4\t1\t1\n"
            ++ (codes "cpuacct\t4\t1\t1\n"
                ++ (codes "blkio\t5\t1\t1\n"
                    ++ (codes "memory\t6\t1\t0\n" ++ codes "devices\t7\t1\t1\n")))))

abbrev cgroot : Text
cgroot = codes "/sys/fs/cgroup"

abbrev at : Text → Text
at group = cgroot ++ b'/' ∷ group

abbrev table : List Mounted
table =
    (record { point = codes "/"; fs = codes "ext4" })
    ∷ (record { point = codes "/sys/fs/cgroup"; fs = codes "tmpfs" })
    ∷ (record { point = codes "/sys/fs/cgroup/cpuset"; fs = codes "cgroup" })
    ∷ []

abbrev groups : List (Text × Target)
groups =
    (codes "cpu,cpuacct", Target.own_mount)
    ∷ (codes "cpu", Target.link_to (codes "cpu,cpuacct"))
    ∷ (codes "cpuset", Target.own_mount)
    ∷ []

abbrev host : MountHost
host = record { disk = calm (λ q. none); mounted = []; refusals = [] }

mounted : (mount_cgroups at cgroot (ok cgroups) (ok table) groups host).0 ≡ ok tt
unfolding mount_cgroups parse_host_cgroups all_found text_eq check_for_conflicts mount_unless_there
    mount_groups mount_group mkdir_all mount link_group
mounted = refl

mount_cgroups_example :
    (found : List Text) × (mounts : List Mounted) × (parse_host_cgroups (ok cgroups) ≡ ok found)
    × (ok table ≡ ok mounts)
    × (all_found found required_set ≡ true)
    × (check_for_conflicts cgroot mounts ≡ ok tt)
    × IsThere mounts (mount_cgroups at cgroot (ok cgroups) (ok table) groups host).1 cgroot
    × All
        (λ g.
          IsWanted found g
          → IsThere mounts (mount_cgroups at cgroot (ok cgroups) (ok table) groups host).1 (at g.0))
        groups
mount_cgroups_example = mount_cgroups_lem at cgroot (ok cgroups) (ok table) groups host mounted
