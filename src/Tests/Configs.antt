-- ===== src/Tests/Configs.antt =====
-- The configurations of CoreDNS that the program's own tests expect, and those of kubectl.
use planet.Start.CoreDns.{CoreDnsConfig, generate_core_dns_config}
use planet.Start.KubeConfig.{
  add_kube_config, write_kube_config, new_kube_config, gravity_data_dir, kubectl_config_path,
  kubectl_host_config_path,
}
use planet.Start.KubeConfig.Written.{AreApart, add_kube_config_written}
use planet.Box.Overrides.{Overrides, addresses}
use planet.Strings.Sort.{sort_texts, text_leb}
use planet.Utils.SafeFile.{safe_write, replace_file}
use planet.Os.{calm, file, directory, Node, mkdir_all, create, write, change_mode, rename, remove}
use planet.Trace.{ok}
use planet.Base.{◌≡◌, refl, true, false, Option, some, List, [], ◌∷◌, ◌++◌, Text, codes, text_eq}

abbrev two_servers : List Text
two_servers = codes "1.1.1.1" ∷ codes "2.2.2.2" ∷ []

abbrev hosts : Overrides
hosts =
    (codes "override2.com", codes "1.2.3.4" ∷ [])
    ∷ (codes "override.com", codes "5.5.5.5" ∷ codes "7.7.7.7" ∷ [])
    ∷ []

abbrev config : CoreDnsConfig
config = record {
  zones = (codes "example2.com", two_servers) ∷ (codes "example.com", two_servers) ∷ [];
  hosts = hosts;
  listen_addrs = codes "127.0.0.2" ∷ codes "127.0.0.3" ∷ [];
  port = 53;
  upstream_nameservers = codes "1.1.1.1" ∷ codes "8.8.8.8" ∷ [];
  rotate = false;
}

config_text :
    generate_core_dns_config config
    ≡ codes
        "\n.:53 {\n  reload\n  bind 127.0.0.2 127.0.0.3\n  errors\n  hosts /etc/coredns/coredns.hosts {\n    5.5.5.5 override.com\n    7.7.7.7 override.com\n    1.2.3.4 override2.com\n    fallthrough\n  }\n  kubernetes cluster.local in-addr.arpa ip6.arpa {\n    endpoint https://leader.telekube.local:6443\n    tls /var/state/coredns.cert /var/state/coredns.key /var/state/root.cert\n    pods verified\n    fallthrough in-addr.arpa ip6.arpa\n  }\n  proxy example.com 1.1.1.1 2.2.2.2 {\n    policy sequential\n  }\n  proxy example2.com 1.1.1.1 2.2.2.2 {\n    policy sequential\n  }\n  forward . 1.1.1.1 8.8.8.8 {\n    policy sequential\n    health_check 0\n  }\n}\n"
unfolding generate_core_dns_config addresses sort_texts text_eq text_leb
config_text = refl

abbrev rotating : CoreDnsConfig
rotating = record {
  zones = [];
  hosts = [];
  listen_addrs = codes "127.0.0.2" ∷ [];
  port = 55;
  upstream_nameservers = codes "1.1.1.1" ∷ [];
  rotate = true;
}

rotating_text :
    generate_core_dns_config rotating
    ≡ codes
        "\n.:55 {\n  reload\n  bind 127.0.0.2\n  errors\n  hosts /etc/coredns/coredns.hosts {\n    fallthrough\n  }\n  kubernetes cluster.local in-addr.arpa ip6.arpa {\n    endpoint https://leader.telekube.local:6443\n    tls /var/state/coredns.cert /var/state/coredns.key /var/state/root.cert\n    pods verified\n    fallthrough in-addr.arpa ip6.arpa\n  }\n  forward . 1.1.1.1 {\n    policy random\n    health_check 0\n  }\n}\n"
unfolding generate_core_dns_config addresses sort_texts text_eq text_leb
rotating_text = refl

abbrev temp : Text → Text
temp p = p ++ codes "~"

apart : AreApart temp (codes "/r" ++ kubectl_config_path) (codes "/r" ++ kubectl_host_config_path)
unfolding text_eq
apart = record { own = refl; other_own = refl; first_other = refl; other_first = refl }

abbrev nodes : Text → Option Node
nodes p = some directory

added :
    (add_kube_config
      (λ p. codes "/r/etc/kubernetes")
      temp
      true
      (codes "/r")
      (codes "10.100.0.1")
      (codes "/mnt/gravity")
      (calm nodes)).0
    ≡ ok tt
unfolding add_kube_config write_kube_config mkdir_all safe_write replace_file create write
    change_mode rename remove text_eq
added = refl

add_kube_config_written_example :
    ((add_kube_config
          (λ p. codes "/r/etc/kubernetes")
          temp
          true
          (codes "/r")
          (codes "10.100.0.1")
          (codes "/mnt/gravity")
          (calm nodes)).1.nodes
        (codes "/r" ++ kubectl_config_path)
      ≡ some (file (new_kube_config (codes "10.100.0.1") gravity_data_dir)))
    × ((add_kube_config
            (λ p. codes "/r/etc/kubernetes")
            temp
            true
            (codes "/r")
            (codes "10.100.0.1")
            (codes "/mnt/gravity")
            (calm nodes)).1.nodes
          (codes "/r" ++ kubectl_host_config_path)
        ≡ some (file (new_kube_config (codes "10.100.0.1") (codes "/mnt/gravity"))))
add_kube_config_written_example =
    add_kube_config_written (λ p. codes "/r/etc/kubernetes") temp true (codes "/r")
      (codes "10.100.0.1") (codes "/mnt/gravity") (calm nodes) apart added
