-- ===== src/Tests/Resolver.antt =====
-- A resolv.conf with an option that is out of range.
use planet.Resolver.{
  to_string, at_least_one, container_config, defaults, read_option, DnsConfig, read_config,
}
use planet.Strings.{has_prefix}
use planet.Trace.{ok}
use planet.Start.Resolv.{elements, append_slice, add_resolv, Slice, take, drop}
use planet.Start.Resolv.Aliasing.{add_resolv_lem}
use planet.Base.{
  ◌≡◌, refl, true, List, [], ◌∷◌, ◌++◌, leb, if◌then◌else◌, Text, codes, text_eq, length,
}

abbrev host_text : Text
host_text = codes "# host\nnameserver 10.0.0.2\noptions ndots:0 rotate\nsearch a.b c.d\n"

abbrev host_config : DnsConfig
host_config = record defaults {
  servers = codes "10.0.0.2" ∷ [];
  search = codes "a.b" ∷ codes "c.d" ∷ [];
  rotate = true;
}

host_config_read : read_config host_text ≡ ok host_config
unfolding read_config read_option has_prefix at_least_one text_eq
host_config_read = refl

container_text :
    to_string (container_config host_config (codes "127.0.0.2" ∷ []))
    ≡ codes
        "search a.b c.d\nnameserver 127.0.0.2\nnameserver 10.0.0.2\noptions ndots:2 timeout:1 attempts:2\n"
unfolding to_string container_config
container_text = refl

abbrev listen : List Text
listen = codes "127.0.0.3" ∷ []

-- The second of two listen addresses is replaced by the host's server.
add_resolv_example :
    let addrs : Slice = record { array = codes "127.0.0.2" ∷ listen; len = 2 } in
    ((add_resolv host_config addrs).0.servers ≡ codes "127.0.0.2" ∷ host_config.servers)
    × (elements (add_resolv host_config addrs).1 ≡ (
        if leb (length host_config.servers) (length listen)
        then codes "127.0.0.2"
          ∷ take 1 (host_config.servers ++ drop (length host_config.servers) listen)
        else codes "127.0.0.2" ∷ take 1 listen))
add_resolv_example = add_resolv_lem host_config (codes "127.0.0.2") listen 1

second_overwritten :
    elements (add_resolv host_config (record { array = codes "127.0.0.2" ∷ listen; len = 2 })).1
    ≡ codes "127.0.0.2" ∷ codes "10.0.0.2" ∷ []
unfolding add_resolv append_slice
second_overwritten = refl
