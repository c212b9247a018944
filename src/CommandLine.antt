-- ===== src/CommandLine.antt =====
-- tool/planet/main.go: the root filesystem that the program stands in, and the lists of addresses that
-- flags turn into. A Go map is the list of its entries in the order of one iteration.
pub mod Rootfs
use planet.Trace.{pure, system, raise, lift, Exec, Result, ◌>>=◌, ◌>>◌}
use planet.Strings.{join, has_prefix}
use planet.Os.{stat, Disk}
use planet.Base.{
  ℕ, Bool, true, false, Option, none, some, List, [], ◌∷◌, ◌++◌, map, if◌then◌else◌, Text, codes,
}

abbrev pub rootfs_dir : Text
rootfs_dir = codes "/rootfs/"

-- `s[:strings.Index(s, sub)]`, the substring first.
unfoldable pub before : Text → Text → Option Text
unfolding has_prefix
before sub [] = if has_prefix sub [] then some [] else none
before sub (c ∷ cs) =
    let rest = before sub cs in
    if has_prefix sub (c ∷ cs) then some [] else elim rest [ none ↦ none | some t ↦ some (c ∷ t) ]

unfoldable pub root_at : Option Text → Exec Disk Text
root_at none = raise (system 0)
root_at (some t) = do stat (t ++ codes "/rootfs"); pure (t ++ codes "/rootfs")

-- `findRootfs`, with the absolute path of the program: up to the substring, and that without its last
-- slash.
unfoldable pub find_rootfs : Result Text → Exec Disk Text
unfolding before root_at
find_rootfs executable = do path ← lift executable; root_at (before rootfs_dir path)

-- `toAddrList`
abbrev pub to_addr_list : List (Text × Text) → List Text
to_addr_list = map (λ e. e.1)

abbrev peer_of : Text × Text → Text
peer_of (domain, addr) = domain ++ codes "=https://" ++ addr ++ codes ":2380"

abbrev endpoint_of : Text × Text → Text
endpoint_of (domain, addr) = addr ++ codes ":2379"

unfoldable pub to_etcd_peer_list : List (Text × Text) → Text
unfolding join
to_etcd_peer_list list = join (codes ",") (map peer_of list)

unfoldable pub to_etcd_gateway_list : List (Text × Text) → Text
unfolding join
to_etcd_gateway_list list = join (codes ",") (map endpoint_of list)

-- The signals that `setupSignalHandlers` asks for.
pub data Signal : Type 0 where
  pipe hang_up user_1 user_2 alarm interrupt terminate quit : Signal

abbrev pub is_ignored : Signal → Bool
is_ignored pipe = true
is_ignored hang_up = true
is_ignored user_1 = true
is_ignored user_2 = true
is_ignored alarm = true
is_ignored _ = false

-- How often the handler calls `stop`: it ends with the first signal that is not ignored.
unfoldable pub stops : List Signal → ℕ
stops [] = 0
stops (s ∷ ss) = let rest = stops ss in if is_ignored s then rest else 1
