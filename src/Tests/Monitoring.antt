-- ===== src/Tests/Monitoring.antt =====
-- The checkers of a master whose calls fail one after the other, and a pool of one certificate.
use planet.Monitoring.{
  add_to_node, MonitoringConfig, Answers, master, node, add_checkers, add_to_master, register,
}
use planet.Monitoring.Registered.{add_checkers_lem, behind, of_role}
use planet.Monitoring.Certificates.{
  new_cert_pool, new_cert_pool_ends, Shortens, out_of_fuel, pool, add_blocks, add_files,
}
use planet.Base.{◌≡◌, refl, ◌≢◌, false, Option, none, some, [], ◌∷◌, arith, Text, codes}
use planet.Trace.{Result, ok, err, not_found}

abbrev conf : MonitoringConfig
conf = record {
  role = master;
  local_nameservers = codes "127.0.0.2" ∷ [];
  registry_addr = codes "https://127.0.0.1:5000";
  nettest_container_image = codes "gravitational/nettest:1.8";
  disable_inter_pod_check = false;
  cloud_provider = codes "AWS";
  node_name = codes "node-1";
  high_watermark = 80;
  http_timeout = 0;
}

-- A host without the second configuration of the Kubernetes clients.
abbrev kube_client : Text → Result (Unit {0})
kube_client path = ok tt

abbrev pub answers : Answers
answers = record {
  etcd_config = ok tt;
  local_transport = ok tt;
  etcd_checker = ok tt;
  kube_client = kube_client;
  ping_checker = err not_found;
  serf_client = ok tt;
  serf_member = ok tt;
  time_drift_checker = ok tt;
}

add_checkers_lem_example :
    add_checkers answers conf [] ≡ behind (answers.etcd_config ∷ []) (of_role master answers conf)
add_checkers_lem_example = add_checkers_lem answers conf

abbrev pub worker : MonitoringConfig
worker = record conf { role = node }

-- The pings of a node are not checked, so that it gets all its checkers.
worker_complete : (add_checkers answers worker []).0 ≡ ok tt
unfolding add_checkers add_to_node register
worker_complete = refl

master_incomplete : (add_checkers answers conf []).0 ≡ err not_found
unfolding add_checkers add_to_master register
master_incomplete = refl

-- A file is a list of blocks of one character.
abbrev decode : Text → Option (Text × Text)
decode [] = none
decode (c ∷ rest) = some (c ∷ [], rest)

decode-Shortens : (parse : Text → Result Text) → Shortens decode parse
decode-Shortens parse [] block rest h = absurd (cc h)
decode-Shortens parse (c ∷ pem) block rest h = ground (arith, h)

new_cert_pool_ends_example :
    new_cert_pool decode (λ b. ok b) (λ f. ok f) (codes "ab" ∷ codes "c" ∷ []) ≢ out_of_fuel
new_cert_pool_ends_example =
    new_cert_pool_ends decode (λ b. ok b) (λ f. ok f) (codes "ab" ∷ codes "c" ∷ [])
      (decode-Shortens (λ b. ok b))

three_certificates :
    new_cert_pool decode (λ b. ok b) (λ f. ok f) (codes "ab" ∷ codes "c" ∷ [])
    ≡ pool (codes "a" ∷ codes "b" ∷ codes "c" ∷ [])
unfolding new_cert_pool add_files add_blocks
three_certificates = refl
