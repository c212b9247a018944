-- ===== src/Start/Resolv.antt =====
-- `addResolv` and `copyResolvFile` of tool/planet/start.go, with Go's slices: the name servers are
-- appended to a part of the slice of listen addresses, whose array is shared. Opening and writing the
-- file, and the new mount, are left out.
pub mod Aliasing
use planet.Resolver.{DnsConfig}
use planet.Base.{
  ℕ, zero, suc, ◌+◌, false, List, [], ◌∷◌, ◌++◌, leb, ◌==◌, if◌then◌else◌, Text, length,
}

module _ {A : Type 0} where
  abbrev pub take : ℕ → List A → List A
  take n [] = []
  take zero (x ∷ xs) = []
  take (suc n) (x ∷ xs) = x ∷ take n xs

  abbrev pub drop : ℕ → List A → List A
  drop n [] = []
  drop zero (x ∷ xs) = x ∷ xs
  drop (suc n) (x ∷ xs) = drop n xs

-- A slice: its array up to the capacity, and its length.
pub record Slice : Type 0 where
  pub array : List Text
  pub len : ℕ

abbrev pub elements : Slice → List Text
elements s = take s.len s.array

-- `append(s, xs...)`: what the result holds, and what the array of `s` holds afterwards. Where the
-- capacity suffices the array is written.
unfoldable pub append_slice : Slice → List Text → List Text × List Text
append_slice s xs =
    let all = elements s ++ xs in
    if leb (s.len + length xs) (length s.array)
    then (all, all ++ drop (s.len + length xs) s.array)
    else (all, s.array)

-- `config.DNS.ListenAddrs[:1]` where there are any: the same array.
abbrev pub first_address : Slice → Slice
first_address s = record s { len = 1 }

-- The configuration for the container, and the listen addresses afterwards.
unfoldable pub add_resolv : DnsConfig → Slice → DnsConfig × Slice
add_resolv conf addrs =
    let (servers, array) = append_slice (first_address addrs) conf.servers in
    if addrs.len == 0 then (record conf { ndots = 2; timeout = 1; rotate = false }, addrs) else (
      record conf { servers = servers; ndots = 2; timeout = 1; rotate = false },
      record addrs { array = array },
    )
