-- ===== src/Monitoring/Registered.antt =====
-- Which checkers an agent has, whichever calls fail.
use planet.Base.{
  ◌≡◌, refl, sym, ap, ◌∙◌, Bool, true, false, List, [], ◌∷◌, ◌++◌, map, append_assoc, append-nil,
  if◌then◌else◌, Text, codes, text_eq,
}
use planet.Monitoring.{
  Checker, MonitoringConfig, Answers, Registry, Registration, call, add, add_if, register,
  add_to_master, add_to_node, add_to_master_steps, add_to_node_steps, add_checkers, add_for,
  has_nameservers, leader_names, Role, master, node, other, kube_api_server_health, docker_health,
  docker_registry_health, etcd_health, systemd_health, kubelet_health, ip_forward, bridge_netfilter,
  may_detach_mounts, inotify, versions, node_status, inter_pod_communication, dns_checker, storage,
  docker_devicemapper, ping, time_drift, aws_has_profile,
}
use planet.Start.Services.{lower}
use planet.Trace.{Result, ok, err, continue}

-- What a registration ends with, and the checkers that it has added.
abbrev pub Added : Type 0
Added = Result (Unit {0}) × List Checker

-- Calls that stand in front: the first one that fails ends the registration.
unfoldable pub behind : List (Result (Unit {0})) → Added → Added
behind [] x = x
behind (err e ∷ rs) x = (err e, [])
behind (ok _ ∷ rs) x = behind rs x

abbrev pub when_not : Bool → Checker → List Checker
when_not b k = if b then [] else k ∷ []

abbrev pub for_nameservers : List Text → List Checker
for_nameservers [] = []
for_nameservers (s ∷ ss) = dns_checker (codes "leader.telekube.local." ∷ []) (s ∷ ss) ∷ []

abbrev pub for_aws : Text → List Checker
for_aws provider = if text_eq (lower provider) (codes "aws") then aws_has_profile ∷ [] else []

-- The checkers of a master in front of the communication of pods, and the last ones before the ping.
abbrev pub health_of_master : MonitoringConfig → List Checker → List Checker
health_of_master c rest =
    kube_api_server_health
    ∷ docker_health (codes "/var/run/docker.sock")
    ∷ docker_registry_health (c.registry_addr ++ codes "/v2/")
    ∷ etcd_health
    ∷ systemd_health
    ∷ ip_forward
    ∷ bridge_netfilter
    ∷ may_detach_mounts
    ∷ inotify
    ∷ node_status c.node_name
    ∷ rest

abbrev pub storage_of_master : MonitoringConfig → List Checker → List Checker
storage_of_master c rest =
    storage (codes "/var/lib/gravity") c.high_watermark
    ∷ docker_devicemapper c.high_watermark
    ∷ rest

-- All that stand before the ping, with `rest` behind them.
abbrev pub first_of_master : MonitoringConfig → List Checker → List Checker
first_of_master c rest = health_of_master c (
    when_not c.disable_inter_pod_check (inter_pod_communication c.nettest_container_image)
    ++ versions ∷ (for_nameservers c.local_nameservers ++ storage_of_master c rest))

-- A master needs two clients of Kubernetes, and serf for the ping and the drift of its clock.
abbrev pub of_master : Answers → MonitoringConfig → Added
of_master a c =
    behind
      (a.local_transport
        ∷ a.etcd_checker
        ∷ a.kube_client (codes "/etc/kubernetes/kubelet.kubeconfig")
        ∷ a.kube_client (codes "/etc/kubernetes/kubectl.kubeconfig")
        ∷ [])
      (let pinged = behind (a.ping_checker ∷ []) (
          let drift =
            behind (a.serf_client ∷ a.serf_member ∷ a.time_drift_checker ∷ [])
              (ok tt, time_drift ∷ for_aws c.cloud_provider) in
          (drift.0, ping ∷ drift.1)) in
        (pinged.0, first_of_master c pinged.1))

-- The checkers of a node, with `rest` behind the first ones.
abbrev pub first_of_node : List Checker → List Checker
first_of_node rest =
    kubelet_health (codes "http://127.0.0.1:10248")
    ∷ docker_health (codes "/var/run/docker.sock")
    ∷ etcd_health
    ∷ systemd_health
    ∷ versions
    ∷ ip_forward
    ∷ bridge_netfilter
    ∷ may_detach_mounts
    ∷ inotify
    ∷ rest

abbrev pub last_of_node : MonitoringConfig → List Checker → List Checker
last_of_node c rest =
    node_status c.node_name
    ∷ storage (codes "/var/lib/gravity") c.high_watermark
    ∷ docker_devicemapper c.high_watermark
    ∷ rest

abbrev pub all_of_node : MonitoringConfig → List Checker
all_of_node c =
    first_of_node (for_nameservers c.local_nameservers ++ last_of_node c (for_aws c.cloud_provider))

abbrev pub of_node : Answers → MonitoringConfig → Added
of_node a c =
    behind (a.etcd_checker ∷ a.kube_client (codes "/etc/kubernetes/kubelet.kubeconfig") ∷ [])
      (ok tt, all_of_node c)

abbrev pub of_role : Role → Answers → MonitoringConfig → Added
of_role master a c = of_master a c
of_role node a c = of_node a c
of_role other a c = (ok tt, [])

-- What statements add to nothing.
collect : List Registration → Added
collect [] = (ok tt, [])
collect (call (err e) ∷ steps) = (err e, [])
collect (call (ok _) ∷ steps) = collect steps
collect (add k ∷ steps) = let x = collect steps in (x.0, k ∷ x.1)
collect (add_if b k ∷ steps) = let x = collect steps in (x.0, (if b then k ∷ [] else []) ++ x.1)

register-collect :
    (steps : List Registration) (ks : Registry)
    → register steps ks ≡ ((collect steps).0, ks ++ (collect steps).1)
unfolding register collect
register-collect [] ks = ap (λ x. (ok tt, x)) (sym (append-nil ks))
register-collect (call (err e) ∷ steps) ks = ap (λ x. (err e, x)) (sym (append-nil ks))
register-collect (call (ok _) ∷ steps) ks = register-collect steps ks
register-collect (add k ∷ steps) ks =
    register-collect steps (ks ++ k ∷ [])
    ∙ ap (λ x. ((collect steps).0, x)) (append_assoc ks (k ∷ []) (collect steps).1)
register-collect (add_if true k ∷ steps) ks =
    register-collect steps (ks ++ k ∷ [])
    ∙ ap (λ x. ((collect steps).0, x)) (append_assoc ks (k ∷ []) (collect steps).1)
register-collect (add_if false k ∷ steps) ks = register-collect steps ks

collect-behind :
    (rs : List (Result (Unit {0}))) (steps : List Registration)
    → collect (map (λ r. call r) rs ++ steps) ≡ behind rs (collect steps)
unfolding collect behind
collect-behind [] steps = refl
collect-behind (err e ∷ rs) steps = refl
collect-behind (ok _ ∷ rs) steps = collect-behind rs steps

collect-nameservers :
    (c : MonitoringConfig) (rest : List Checker)
    → (if has_nameservers c then dns_checker leader_names c.local_nameservers ∷ [] else []) ++ rest
      ≡ for_nameservers c.local_nameservers ++ rest
collect-nameservers c rest = named c.local_nameservers
  where
    named :
        (l : List Text)
        → (if (elim l [ [] ↦ false | _ ∷ _ ↦ true ]) then dns_checker leader_names l ∷ [] else [])
            ++ rest
          ≡ for_nameservers l ++ rest
    named [] = refl
    named (s ∷ ss) = refl

collect-pods :
    (b : Bool) (k : Checker) (rest : List Checker)
    → (if (if b then false else true) then k ∷ [] else []) ++ rest ≡ when_not b k ++ rest
collect-pods true k rest = refl
collect-pods false k rest = refl

collect-node : (a : Answers) (c : MonitoringConfig) → collect (add_to_node_steps a c) ≡ of_node a c
unfolding collect
collect-node a c =
    let calls = a.etcd_checker ∷ a.kube_client (codes "/etc/kubernetes/kubelet.kubeconfig") ∷ [] in
    let aws = for_aws c.cloud_provider in
    collect-behind calls _
    ∙ ap (λ x. behind calls (ok tt, first_of_node x))
        (collect-nameservers c (last_of_node c (aws ++ []))
          ∙ ap (λ y. for_nameservers c.local_nameservers ++ last_of_node c y) (append-nil aws))

abbrev drift_steps : Answers → MonitoringConfig → List Registration
drift_steps a c =
    call a.serf_client
    ∷ call a.serf_member
    ∷ call a.time_drift_checker
    ∷ add time_drift
    ∷ add_if (text_eq (lower c.cloud_provider) (codes "aws")) aws_has_profile
    ∷ []

collect-drift :
    (a : Answers) (c : MonitoringConfig)
    → collect (drift_steps a c)
      ≡ behind
          (a.serf_client ∷ a.serf_member ∷ a.time_drift_checker ∷ [])
          (ok tt, time_drift ∷ for_aws c.cloud_provider)
unfolding collect
collect-drift a c =
    let calls = a.serf_client ∷ a.serf_member ∷ a.time_drift_checker ∷ [] in
    collect-behind calls _
    ∙ ap (λ x. behind calls (ok tt, time_drift ∷ x)) (append-nil (for_aws c.cloud_provider))

first_of_master-collect :
    (c : MonitoringConfig) (rest : List Checker)
    → health_of_master c (
        (if (if c.disable_inter_pod_check then false else true)
          then inter_pod_communication c.nettest_container_image ∷ []
          else [])
        ++ versions
          ∷ ((if has_nameservers c then dns_checker leader_names c.local_nameservers ∷ [] else [])
              ++ storage_of_master c rest))
      ≡ first_of_master c rest
first_of_master-collect c rest =
    ap (λ x. health_of_master c x)
      (collect-pods c.disable_inter_pod_check (inter_pod_communication c.nettest_container_image) _
        ∙ ap
            (λ y.
              when_not c.disable_inter_pod_check (inter_pod_communication c.nettest_container_image)
              ++ versions ∷ y)
            (collect-nameservers c (storage_of_master c rest)))

collect-master :
    (a : Answers) (c : MonitoringConfig) → collect (add_to_master_steps a c) ≡ of_master a c
unfolding collect
collect-master a c =
    let clients =
      a.local_transport
      ∷ a.etcd_checker
      ∷ a.kube_client (codes "/etc/kubernetes/kubelet.kubeconfig")
      ∷ a.kube_client (codes "/etc/kubernetes/kubectl.kubeconfig")
      ∷ [] in
    let before : Added → Added = λ x. (x.0, first_of_master c x.1) in
    let ping_first : Added → Added = λ x. behind (a.ping_checker ∷ []) (x.0, ping ∷ x.1) in
    let pinged = collect (call a.ping_checker ∷ add ping ∷ drift_steps a c) in
    collect-behind clients _
    ∙ ap (λ x. behind clients x)
        (ap (λ x. (pinged.0, x)) (first_of_master-collect c pinged.1)
          ∙ ap before (collect-behind (a.ping_checker ∷ []) _ ∙ ap ping_first (collect-drift a c)))

-- A new agent gets exactly these checkers, in this order: those of its role, less the ones behind the first
-- call that fails, whose error is what is returned.
pub add_checkers_lem :
    (a : Answers) (c : MonitoringConfig)
    → add_checkers a c [] ≡ behind (a.etcd_config ∷ []) (of_role c.role a c)
unfolding add_checkers add_to_master add_to_node behind
add_checkers_lem a c = for_role a.etcd_config c.role
  where
    for_role :
        (r : Result (Unit {0})) (role : Role)
        → continue r (λ _. add_for role a c) [] ≡ behind (r ∷ []) (of_role role a c)
    for_role (err e) role = refl
    for_role (ok u) master = register-collect (add_to_master_steps a c) [] ∙ collect-master a c
    for_role (ok u) node = register-collect (add_to_node_steps a c) [] ∙ collect-node a c
    for_role (ok u) other = refl
