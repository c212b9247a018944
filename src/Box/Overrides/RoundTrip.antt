-- ===== src/Box/Overrides/RoundTrip.antt =====
-- `DNSOverrides` written and read again.
use planet.Base.{
  ◌≡◌, refl, sym, ap, ◌∙◌, Bool, false, ◌||◌, List, [], ◌∷◌, ◌++◌, append_assoc, append-nil, arith,
  if◌then◌else◌, Text, codes, text_eq, text_eq_iff,
}
use planet.Box.Overrides.{
  set_item_lem, Overrides, addresses, set_item, set_items, set, format_host, format_hosts,
  to_string,
}
use planet.Strings.Split.{Lacks}
use planet.Trace.{ok, Exec}

-- Whether a host has an entry.
abbrev has_host : Overrides → Text → Bool
has_host [] k = false
has_host ((j, vs) ∷ d) k = text_eq j k || has_host d k

abbrev AllLack : List Text → Type 0
AllLack [] = Unit
AllLack (v ∷ vs) = Lacks b'/' v × AllLack vs

-- Each host has one entry, and no host or address has a slash, as the map of the program and its reader
-- have it.
abbrev pub IsMap : Overrides → Type 0
IsMap [] = Unit
IsMap ((k, vs) ∷ d) = Lacks b'/' k × AllLack vs × (has_host d k ≡ false) × IsMap d

-- `m` adds to each host the addresses that `more` gives.
abbrev Adds : Exec Overrides (Unit {0}) → (Text → List Text) → Overrides → Type 0
Adds m more d = ((m d).0 ≡ ok tt) × ((j : Text) → addresses (m d).1 j ≡ addresses d j ++ more j)

set_items-more :
    (i : Text) (rest : List Text) (d : Overrides)
    → (set_item i d).0 ≡ ok tt
    → set_items (i ∷ rest) d ≡ set_items rest (set_item i d).1
unfolding set_items
set_items-more i rest d h = rw h refl

host_addresses : Text → List Text → Text → List Text
host_addresses k vs j = if text_eq k j then vs else []

set_items-format_host :
    (k : Text) (vs rest : List Text) (more : Text → List Text) (d : Overrides)
    → Lacks b'/' k
    → AllLack vs
    → ((d : Overrides) → Adds (set_items rest) more d)
    → Adds (set_items (format_host k vs ++ rest)) (λ j. host_addresses k vs j ++ more j) d
unfolding format_host host_addresses
set_items-format_host k [] rest more d h l behind =
    ((behind d).0, λ j. ground (arith, (behind d).1 j))
set_items-format_host k (v ∷ vs) rest more d h (lv, l) behind =
    let item = set_item_lem k v in
    let first = (item k d h lv).0 in
    let now = (set_item (k ++ (codes "/" ++ v)) d).1 in
    let e = set_items-more (k ++ (codes "/" ++ v)) (format_host k vs ++ rest) d first in
    let (done, adds) = set_items-format_host k vs rest more now h l behind in
    (
      ap (λ x. x.0) e ∙ done,
      λ j.
          ap (λ x. addresses x.1 j) e
          ∙ (adds j
              ∙ ground (
                arith,
                (item j d h lv).1,
                text_eq_iff k j,
                append_assoc (addresses d k) (v ∷ []) (vs ++ more j),
                append_assoc (addresses d k) (v ∷ []) (more j),
              )),
    )

addresses-missing : (d : Overrides) (k : Text) → has_host d k ≡ false → addresses d k ≡ []
unfolding addresses
addresses-missing [] k h = refl
addresses-missing ((j, vs) ∷ d) k h = ground (arith, h, addresses-missing d k)

entry-addresses :
    (k : Text) (vs : List Text) (d : Overrides) (j : Text)
    → has_host d k ≡ false
    → host_addresses k vs j ++ addresses d j ≡ addresses ((k, vs) ∷ d) j
unfolding addresses host_addresses
entry-addresses k vs d j h = ground (arith, text_eq_iff k j, addresses-missing d k h, append-nil vs)

set_items-format_hosts :
    (d acc : Overrides) → IsMap d → Adds (set_items (format_hosts d)) (addresses d) acc
unfolding format_hosts set_items addresses
set_items-format_hosts [] acc m = (refl, λ j. sym (append-nil (addresses acc j)))
set_items-format_hosts ((k, vs) ∷ d) acc (lk, lv, new, m) =
    let (done, adds) =
      set_items-format_host k vs (format_hosts d) (addresses d) acc lk lv
        (λ a. set_items-format_hosts d a m) in
    (done, λ j. adds j ∙ ap (λ x. addresses acc j ++ x) (entry-addresses k vs d j new))

-- Where `SplitComma` takes the printed text apart at its commas: reading it gives every host the addresses
-- that it had, in their order.
pub set-to_string :
    (split_comma : Text → List Text) (d : Overrides) (j : Text)
    → IsMap d
    → split_comma (to_string d) ≡ format_hosts d
    → ((set split_comma (to_string d) []).0 ≡ ok tt)
      × (addresses (set split_comma (to_string d) []).1 j ≡ addresses d j)
unfolding set addresses
set-to_string split_comma d j m h =
    let (done, same) = set_items-format_hosts d [] m in rw h (done, same j)
