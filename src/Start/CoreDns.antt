-- ===== src/Start/CoreDns.antt =====
-- `generateCoreDNSConfig` of tool/planet/start.go: the template of the configuration of CoreDNS, executed.
-- Go's text/template visits the keys of a map in the order of `sort.Strings`.
use planet.Base.{ℕ, Bool, true, false, List, [], ◌∷◌, ◌++◌, map, Text, codes}
use planet.Box.Overrides.{Overrides, addresses}
use planet.Strings.Decimal.{itoa}
use planet.Strings.Sort.{sort_texts}

-- `Import` stands in no place of the template.
pub record CoreDnsConfig : Type 0 where
  pub zones : Overrides
  pub hosts : Overrides
  pub listen_addrs : List Text
  pub port : ℕ
  pub upstream_nameservers : List Text
  pub rotate : Bool

abbrev pub keys : Overrides → List Text
keys = map (λ e. e.0)

-- `{{range $x := .Xs}}...{{end}}`
unfoldable pub range : (Text → Text) → List Text → Text
range body [] = []
range body (x ∷ xs) = body x ++ range body xs

-- `{{range $key, $values := .Map}}...{{end}}`
unfoldable pub range_map : (Text → List Text → Text) → Overrides → Text
unfolding range addresses sort_texts
range_map body m = range (λ k. body k (addresses m k)) (sort_texts (keys m))

host_lines : Text → List Text → Text
unfolding range
host_lines hostname = range λ ip. codes "\n    " ++ (ip ++ (codes " " ++ hostname))

zone_block : Text → List Text → Text
unfolding range
zone_block zone servers =
    codes "\n  proxy "
    ++ (zone
        ++ (codes " "
            ++ (range (λ s. s ++ codes " ") servers ++ codes "{\n    policy sequential\n  }")))

abbrev policy : Bool → Text
policy true = codes "policy random"
policy false = codes "policy sequential"

abbrev head_text : ℕ → List Text → Text
head_text port addrs =
    codes "\n.:"
    ++ (itoa port
        ++ (codes " {\n  reload\n  bind"
            ++ (range (λ a. codes " " ++ a) addrs
                ++ codes "\n  errors\n  hosts /etc/coredns/coredns.hosts {")))

abbrev kubernetes_text : Text
kubernetes_text =
    codes
      "\n    fallthrough\n  }\n  kubernetes cluster.local in-addr.arpa ip6.arpa {\n    endpoint https://leader.telekube.local:6443\n    tls /var/state/coredns.cert /var/state/coredns.key /var/state/root.cert\n    pods verified\n    fallthrough in-addr.arpa ip6.arpa\n  }"

abbrev forward_text : List Text → Bool → Text
forward_text servers rotate =
    codes "\n  forward . "
    ++ (range (λ s. s ++ codes " ") servers
        ++ (codes "{\n    " ++ (policy rotate ++ codes "\n    health_check 0\n  }\n}\n")))

unfoldable pub generate_core_dns_config : CoreDnsConfig → Text
unfolding range range_map host_lines zone_block itoa
generate_core_dns_config c =
    head_text c.port c.listen_addrs
    ++ (range_map host_lines c.hosts
        ++ (kubernetes_text
            ++ (range_map zone_block c.zones ++ forward_text c.upstream_nameservers c.rotate)))
