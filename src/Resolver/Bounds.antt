-- ===== src/Resolver/Bounds.antt =====
-- What a configuration that was read satisfies.
use mathlib.Core.Path.{subst}
use planet.Strings.{fields, drop, scan_lines}
use planet.Trace.{ok}
use planet.Resolver.{
  is_comment, with_servers, defaults, read_words, read_line, add_server, set_domain, read_options,
  read_config, read_lines, read_fields, DnsConfig, at_least_one, read_option,
}
use planet.Base.{
  ◌≤◌, ◌≡◌, inl, inr, false, List, [], ◌∷◌, arith, Bool-cases, Text, length, is_empty,
  length-append,
}

-- At most three servers, and numbers of at least 1.
abbrev pub IsBounded : DnsConfig → Type 0
IsBounded d = (length d.servers ≤ 3) × (1 ≤ d.ndots) × (1 ≤ d.timeout) × (1 ≤ d.attempts)

at_least_one_bound : (s : Text) → 1 ≤ at_least_one s
unfolding at_least_one
at_least_one_bound s = ground arith

read_option-IsBounded : (s : Text) (d : DnsConfig) → IsBounded d → IsBounded (read_option s d)
unfolding read_option
read_option-IsBounded s d h = ground (
  arith,
  at_least_one_bound (drop 6 s),
  at_least_one_bound (drop 8 s),
  at_least_one_bound (drop 9 s),
)

read_options-IsBounded :
    (ss : List Text) (d : DnsConfig) → IsBounded d → IsBounded (read_options ss d)
unfolding read_options
read_options-IsBounded [] d h = h
read_options-IsBounded (s ∷ ss) d h =
    read_options-IsBounded ss (read_option s d) (read_option-IsBounded s d h)

add_server-IsBounded :
    (args : List Text) (d : DnsConfig) → IsBounded d → IsBounded (add_server args d)
unfolding add_server
add_server-IsBounded [] d h = h
add_server-IsBounded (s ∷ rest) d h = ground (arith, length-append d.servers (s ∷ []))

set_domain-IsBounded :
    (args : List Text) (d : DnsConfig) → IsBounded d → IsBounded (set_domain args d)
set_domain-IsBounded [] d h = h
set_domain-IsBounded (x ∷ rest) d h = h

read_words-IsBounded :
    (k : Text) (args : List Text) (d : DnsConfig) → IsBounded d → IsBounded (read_words k args d)
unfolding read_words
read_words-IsBounded k args d h = ground (
  arith,
  add_server-IsBounded args d h,
  set_domain-IsBounded args d h,
  read_options-IsBounded args d h,
)

read_fields-IsBounded :
    (args : List Text) (d : DnsConfig) → IsBounded d → IsBounded (read_fields args d)
read_fields-IsBounded [] d h = h
read_fields-IsBounded (k ∷ args) d h = read_words-IsBounded k args d h

read_line-IsBounded : (line : Text) (d : DnsConfig) → IsBounded d → IsBounded (read_line line d)
unfolding read_line
read_line-IsBounded line d h = elim (Bool-cases (is_comment line)) [
  | inl e ↦ rw e h
  | inr e ↦ rw e (read_fields-IsBounded (fields line) d h)
]

read_lines-IsBounded : (ls : List Text) (d : DnsConfig) → IsBounded d → IsBounded (read_lines ls d)
unfolding read_lines
read_lines-IsBounded [] d h = h
read_lines-IsBounded (l ∷ ls) d h =
    read_lines-IsBounded ls (read_line l d) (read_line-IsBounded l d h)

is_empty-length : (xs : List Text) → is_empty xs ≡ false → 1 ≤ length xs
is_empty-length [] h = absurd (ground (arith, h))
is_empty-length (x ∷ xs) h = omega arith

defaults-IsBounded : IsBounded defaults
defaults-IsBounded = (omega arith, omega arith, omega arith, omega arith)

with_servers_bound :
    (d : DnsConfig)
    → IsBounded d
    → IsBounded (with_servers d) × (1 ≤ length (with_servers d).servers)
with_servers_bound d h = elim (Bool-cases (is_empty d.servers)) [
  | inl e ↦ rw e ((omega arith, h.1, h.2, h.3), omega arith)
  | inr e ↦ rw e (h, is_empty-length d.servers e)
]

-- A configuration that could be read holds one to three servers, and its numbers are at least 1.
read_config-IsBounded :
    (text : Text) (d : DnsConfig) → read_config text ≡ ok d → IsBounded d × (1 ≤ length d.servers)
unfolding read_config
read_config-IsBounded text d e = elim (Bool-cases (scan_lines text).1) [
  | inl long ↦ absurd (ground (arith, e, long))
  | inr whole ↦
      let conf = read_lines (scan_lines text).0 defaults in
      let bound = read_lines-IsBounded (scan_lines text).0 defaults defaults-IsBounded in
      let same : with_servers conf ≡ d = ground (arith, e, whole) in
      subst (λ x. IsBounded x × (1 ≤ length x.servers)) same (with_servers_bound conf bound)
]
