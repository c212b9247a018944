-- ===== src/Box/Overrides.antt =====
-- `DNSOverrides` of lib/box/cfg.go: hosts and their addresses. The map is a list of entries, one for
-- each key in the order of insertion.
pub mod RoundTrip
use planet.Strings.Split.{pieces-Lacks, pieces-append, Lacks}
use planet.Base.{
  ◌≡◌, refl, List, [], ◌∷◌, ◌++◌, arith, if◌then◌else◌, Text, codes, text_eq, text_eq_iff,
}
use planet.Strings.{split, join}
use planet.Trace.{ok, err, bad_parameter, Exec, pure, ◌>>◌}

abbrev pub Overrides : Type 0
Overrides = List (Text × List Text)

-- A missing key has no addresses.
unfoldable pub addresses : Overrides → Text → List Text
addresses [] k = []
addresses ((j, vs) ∷ d) k = if text_eq j k then vs else addresses d k

-- `d[k] = append(d[k], v)`
unfoldable pub add_address : Overrides → Text → Text → Overrides
add_address [] k v = (k, v ∷ []) ∷ []
add_address ((j, vs) ∷ d) k v =
    if text_eq j k then (j, vs ++ v ∷ []) ∷ d else (j, vs) ∷ add_address d k v

add_parsed : List Text → Exec Overrides (Unit {0})
add_parsed (host ∷ ip ∷ []) d = (ok tt, add_address d host ip)
add_parsed _ d = (err bad_parameter, d)

unfoldable pub set_item : Text → Exec Overrides (Unit {0})
unfolding add_parsed add_address
set_item v = add_parsed (split b'/' v)

unfoldable pub set_items : List Text → Exec Overrides (Unit {0})
unfolding set_item
set_items [] = pure tt
set_items (i ∷ rest) = set_item i >> set_items rest

unfoldable pub set : (Text → List Text) → Text → Exec Overrides (Unit {0})
unfolding set_items
set split_comma v = set_items (split_comma v)

-- A host and each of its addresses, as `String` writes them.
unfoldable pub format_host : Text → List Text → List Text
format_host k [] = []
format_host k (v ∷ vs) = (k ++ (codes "/" ++ v)) ∷ format_host k vs

unfoldable pub format_hosts : Overrides → List Text
unfolding format_host
format_hosts [] = []
format_hosts ((k, vs) ∷ d) = format_host k vs ++ format_hosts d

-- `String`, in the order of the entries.
unfoldable pub to_string : Overrides → Text
unfolding format_hosts join
to_string d = join (codes ",") (format_hosts d)

pub addresses-add_address :
    (d : Overrides) (k v j : Text)
    → addresses (add_address d k v) j
      ≡ (if text_eq k j then addresses d k ++ v ∷ [] else addresses d j)
unfolding addresses add_address
addresses-add_address [] k v j = refl
addresses-add_address ((i, vs) ∷ d) k v j =
    ground (arith, text_eq_iff i k, text_eq_iff i j, text_eq_iff k j, addresses-add_address d k v j)

-- `setItem` on a host and an address with no further slash adds the address behind those of the host,
-- and changes no other host.
pub set_item_lem :
    (host ip j : Text) (d : Overrides)
    → Lacks b'/' host
    → Lacks b'/' ip
    → ((set_item (host ++ (codes "/" ++ ip)) d).0 ≡ ok tt)
      × (addresses (set_item (host ++ (codes "/" ++ ip)) d).1 j
          ≡ (if text_eq host j then addresses d host ++ ip ∷ [] else addresses d j))
unfolding set_item
set_item_lem host ip j d h k =
    rw (pieces-append b'/' host ip h)
      (rw (pieces-Lacks b'/' ip k) (refl, addresses-add_address d host ip j))
