-- ===== src/Etcd/Service/Restarted.antt =====
-- Which clients of etcd are restarted.
use planet.Systemd.{Command, Host, systemctl}
use planet.Trace.{ok, Result}
use planet.Etcd.Service.{restart_clients}
use planet.Base.{
  ◌≡◌, refl, sym, ◌∙◌, inl, inr, List, [], ◌∷◌, ◌++◌, append_assoc, append-nil, if◌then◌else◌,
  Bool-cases, Text, codes, text_eq,
}

-- The restarts of the services that are not inactive.
pub restarts : (Text → Text) → List Text → List Command
restarts state [] = []
restarts state (s ∷ ss) =
    let rest = restarts state ss in
    if text_eq (state s) (codes "inactive")
    then rest
    else record { verb = codes "restart"; unit = s } ∷ rest

-- Where every status is known, each service that is not inactive is restarted, in the order of the
-- list, whether or not the restarts before it succeed.
pub restart_clients_lem :
    (status : Text → Result Text) (state : Text → Text) (ss : List Text) (h : Host)
    → ((s : Text) → status s ≡ ok (state s))
    → ((restart_clients status ss h).0 ≡ ok tt)
      × ((restart_clients status ss h).1.commands ≡ h.commands ++ restarts state ss)
unfolding restart_clients restarts systemctl
restart_clients_lem status state [] h known = (refl, sym (append-nil h.commands))
restart_clients_lem status state (s ∷ ss) h known =
    let next : Host = (systemctl (codes "restart") s h).1 in
    let command : Command = record { verb = codes "restart"; unit = s } in
    elim (Bool-cases (text_eq (state s) (codes "inactive"))) [
      | inl e ↦ rw (known s, restart_clients) (rw e (restart_clients_lem status state ss h known))
      | inr e ↦
          let ih = restart_clients_lem status state ss next known in
          rw (known s, restart_clients)
            (rw e (ih.0, ih.1 ∙ append_assoc h.commands (command ∷ []) (restarts state ss)))
    ]
