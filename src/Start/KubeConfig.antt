-- ===== src/Start/KubeConfig.antt =====
-- The configurations of kubectl: `NewKubeConfig` of tool/planet/cfg.go, and `addKubeConfig` and
-- `setKubeConfigOwnership` of tool/planet/start.go. `parent` is Go's `filepath.Dir`, `temp` the name of the
-- temporary file of a path. The program writes the two files in the order of a map, which is any.
pub mod Written
use planet.Base.{Bool, true, false, List, [], ◌∷◌, ◌++◌, Text, codes}
use planet.Trace.{ok, err, Exec, pure, raise, attempt, ◌>>◌, ◌>>=◌}
use planet.Os.{Disk, mkdir_all, change_mode}
use planet.Utils.SafeFile.{safe_write}

-- The template, executed.
unfoldable pub new_kube_config : Text → Text → Text
new_kube_config ip state_dir =
    codes
      "apiVersion: v1\nkind: Config\ncurrent-context: default\nclusters:\n- name: default\n  cluster:\n    certificate-authority: "
    ++ (state_dir
        ++ (codes "/secrets/root.cert\n    server: https://"
            ++ (ip
                ++ (codes "\nusers:\n- name: default\n  user:\n    client-certificate: "
                    ++ (state_dir
                        ++ (codes "/secrets/kubectl.cert\n    client-key: "
                            ++ (state_dir
                                ++ codes
                                    "/secrets/kubectl.key\ncontexts:\n- name: default\n  context:\n    cluster: default\n    user: default\n    namespace: default")))))))

abbrev pub gravity_data_dir : Text
gravity_data_dir = codes "/var/lib/gravity"

abbrev pub kubectl_config_path : Text
kubectl_config_path = codes "/etc/kubernetes/kubectl.kubeconfig"

abbrev pub kubectl_host_config_path : Text
kubectl_host_config_path = codes "/etc/kubernetes/kubectl-host.kubeconfig"

-- One round of the loop.
unfoldable pub write_kube_config :
    (Text → Text) → (Text → Text) → Text → Text → Text → Exec Disk (Unit {0})
write_kube_config parent temp path ip state_dir =
    mkdir_all (parent path) >> safe_write (temp path) path (new_kube_config ip state_dir)

-- `swapped` says in which order the map is visited.
unfoldable pub add_kube_config :
    (Text → Text) → (Text → Text) → Bool → Text → Text → Text → Exec Disk (Unit {0})
add_kube_config parent temp false rootfs ip host_state_dir = do
  write_kube_config parent temp (rootfs ++ kubectl_config_path) ip gravity_data_dir
  write_kube_config parent temp (rootfs ++ kubectl_host_config_path) ip host_state_dir
add_kube_config parent temp true rootfs ip host_state_dir = do
  write_kube_config parent temp (rootfs ++ kubectl_host_config_path) ip host_state_dir
  write_kube_config parent temp (rootfs ++ kubectl_config_path) ip gravity_data_dir

abbrev pub owned_configs : List Text
owned_configs =
    codes "/etc/kubernetes/scheduler.kubeconfig"
    ∷ codes "/etc/kubernetes/proxy.kubeconfig"
    ∷ codes "/etc/kubernetes/kubelet.kubeconfig"
    ∷ []

-- The loop goes on after an error; the first error stands for the aggregate.
unfoldable pub change_owners : Text → List Text → Exec Disk (Unit {0})
unfolding change_mode
change_owners rootfs [] = pure tt
change_owners rootfs (c ∷ cs) = do
  r ← attempt (change_mode (rootfs ++ c))
  rest ← attempt (change_owners rootfs cs)
  elim r [ err e ↦ raise e | ok _ ↦ elim rest [ err e ↦ raise e | ok _ ↦ pure tt ] ]

unfoldable pub set_kube_config_ownership : Text → Exec Disk (Unit {0})
unfolding change_owners
set_kube_config_ownership rootfs = change_owners rootfs owned_configs
