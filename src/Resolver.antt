-- ===== src/Resolver.antt =====
-- lib/utils/dns.go: the resolver's configuration, and what tool/planet/start.go makes of the host's.
pub mod Bounds
use planet.Strings.{drop, fields, words, has_prefix, join, scan_lines}
use planet.Strings.Atoi.{atoi}
use planet.Strings.Decimal.{itoa}
use planet.Trace.{ok, system, err, Result}
use planet.Base.{
  ℕ, Bool, true, false, ◌||◌, List, [], ◌∷◌, ◌++◌, ltb, ◌==◌, if◌then◌else◌, Text, codes, text_eq,
  length, is_empty,
}

pub record DnsConfig : Type 0 where
  pub servers : List Text
  pub domain : Text
  pub search : List Text
  pub ndots : ℕ
  pub timeout : ℕ
  pub attempts : ℕ
  pub rotate : Bool
  pub unknown_opt : Bool
  pub lookup : List Text

abbrev pub default_servers : List Text
default_servers = codes "127.0.0.1" ∷ codes "::1" ∷ []

abbrev pub defaults : DnsConfig
defaults = record {
  servers = [];
  domain = [];
  search = [];
  ndots = 1;
  timeout = 5;
  attempts = 2;
  rotate = false;
  unknown_opt = false;
  lookup = [];
}

-- The number of an option, at least 1.
unfoldable pub at_least_one : Text → ℕ
unfolding atoi
at_least_one s = let n = atoi s in if ltb n 1 then 1 else n

-- One word of an `options` line.
unfoldable pub read_option : Text → DnsConfig → DnsConfig
read_option s conf =
    if has_prefix (codes "ndots:") s
    then record conf { ndots = at_least_one (drop 6 s) }
    else if has_prefix (codes "timeout:") s
    then record conf { timeout = at_least_one (drop 8 s) }
    else if has_prefix (codes "attempts:") s
    then record conf { attempts = at_least_one (drop 9 s) }
    else if text_eq s (codes "rotate")
    then record conf { rotate = true }
    else record conf { unknown_opt = true }

unfoldable pub read_options : List Text → DnsConfig → DnsConfig
unfolding read_option
read_options [] conf = conf
read_options (s ∷ ss) conf = read_options ss (read_option s conf)

-- A fourth server is passed over.
unfoldable pub add_server : List Text → DnsConfig → DnsConfig
add_server [] conf = conf
add_server (s ∷ _) conf =
    if ltb (length conf.servers) 3 then record conf { servers = conf.servers ++ s ∷ [] } else conf

abbrev pub set_domain : List Text → DnsConfig → DnsConfig
set_domain [] conf = conf
set_domain (d ∷ _) conf = record conf { domain = d }

-- A line of the words `k` and `args`.
unfoldable pub read_words : Text → List Text → DnsConfig → DnsConfig
unfolding read_options add_server text_eq
read_words k args conf =
    if text_eq k (codes "nameserver")
    then add_server args conf
    else if text_eq k (codes "domain")
    then set_domain args conf
    else if text_eq k (codes "search")
    then record conf { search = args }
    else if text_eq k (codes "options")
    then read_options args conf
    else if text_eq k (codes "lookup")
    then record conf { lookup = args }
    else record conf { unknown_opt = true }

abbrev pub is_comment : Text → Bool
is_comment [] = false
is_comment (c ∷ _) = c == b';' || c == b'#'

abbrev pub read_fields : List Text → DnsConfig → DnsConfig
read_fields [] conf = conf
read_fields (k ∷ args) conf = read_words k args conf

unfoldable pub read_line : Text → DnsConfig → DnsConfig
unfolding read_words words
read_line line conf = if is_comment line then conf else read_fields (fields line) conf

unfoldable pub read_lines : List Text → DnsConfig → DnsConfig
unfolding read_line
read_lines [] conf = conf
read_lines (l ∷ ls) conf = read_lines ls (read_line l conf)

-- The local resolver stands in where no server is named.
abbrev pub with_servers : DnsConfig → DnsConfig
with_servers conf =
    if is_empty conf.servers then record conf { servers = default_servers } else conf

-- `DNSReadConfig` of a text that can be read to its end; a line that is too long is an error.
unfoldable pub read_config : Text → Result DnsConfig
unfolding read_lines scan_lines
read_config text =
    let (lines, too_long) = scan_lines text in
    if too_long then err (system 0) else ok (with_servers (read_lines lines defaults))

abbrev setting : Text → Text → Text
setting k v = k ++ (codes " " ++ (v ++ codes "\n"))

abbrev unless_empty : List Text → Text → Text
unless_empty [] t = []
unless_empty (_ ∷ _) t = t

unfoldable pub server_lines : List Text → Text
server_lines [] = []
server_lines (s ∷ ss) = setting (codes "nameserver") s ++ server_lines ss

-- `DNSConfig.String`
unfoldable pub to_string : DnsConfig → Text
unfolding join server_lines itoa
to_string d =
    let domain = if is_empty d.domain then [] else setting (codes "domain") d.domain in
    let search = unless_empty d.search (setting (codes "search") (join (codes " ") d.search)) in
    let options =
      join (codes " ") (
        (codes "ndots:" ++ itoa d.ndots)
        ∷ (codes "timeout:" ++ itoa d.timeout)
        ∷ (codes "attempts:" ++ itoa d.attempts)
        ∷ [])
      ++ (if d.rotate then codes " rotate" else []) in
    let lookup = unless_empty d.lookup (setting (codes "lookup") (join (codes " ") d.lookup)) in
    domain ++ (search ++ (server_lines d.servers ++ (setting (codes "options") options ++ lookup)))

-- What `copyResolvFile` writes for the container: its own name servers first.
unfoldable pub container_config : DnsConfig → List Text → DnsConfig
container_config conf own = record conf {
  servers = own ++ conf.servers;
  ndots = 2;
  timeout = 1;
  rotate = false;
}
