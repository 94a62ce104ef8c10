-- ===== src/Runner/Compose.antt =====
-- `Compose` of testbed/run.py: the commands that are run, and what is read of `ps`.
use autonat_project.Base.{String, ◌<>◌, none, some, List, [], ◌∷◌, ◌++◌, ◌==◌, if◌then◌else◌}
use autonat_project.Json.{Json, Python}

abbrev pub compose_file : String
compose_file = "testbed/docker/compose.yml"

unfoldable pub profile_args : List String → List String
profile_args [] = []
profile_args (p ∷ profiles) = "--profile" ∷ p ∷ profile_args profiles

-- `Compose.run`: the command line.
unfoldable pub compose_run : List String → List String → List String
unfolding profile_args
compose_run args profiles =
    "docker" ∷ "compose" ∷ "-f" ∷ compose_file ∷ (profile_args profiles ++ args)

abbrev pub compose_up : List String → List String
compose_up profiles = compose_run ("up" ∷ "--build" ∷ "-d" ∷ []) profiles

abbrev pub compose_down : List String → List String
compose_down profiles = compose_run ("down" ∷ "--volumes" ∷ "--remove-orphans" ∷ []) profiles

abbrev pub exec_router : String → List String
exec_router script = compose_run ("exec" ∷ "-T" ∷ "router" ∷ "bash" ∷ "-c" ∷ script ∷ []) []

-- `ps_json`, over the lines of the stripped output: a line that does not decode is left out.
unfoldable pub ps_json : Python → List String → List Json
ps_json py [] = []
ps_json py (line ∷ lines) =
    let rest = ps_json py lines in elim (py.loads line) [ none ↦ rest | some item ↦ item ∷ rest ]

abbrev pub client_private_ip : String
client_private_ip = "10.0.1.10"

-- The script of `exec_toggle`; `port` is the port's digits.
unfoldable pub toggle_script : String → String → String
toggle_script action port =
    let flag = if action == "add_port_forward" then "-I" else "-D" in
    let suffix = if action == "remove_port_forward" then " 2>/dev/null || true" else "" in
    let target = client_private_ip <> ":" <> port <> suffix in
    let accepted = " --dport " <> port <> " -j ACCEPT" <> suffix in
    "\n        PUB_IFACE=$(ip -4 addr show | grep '73\\.0\\.0\\.' | awk '{print $NF}')"
    <> "\n        PRIV_IFACE=$(ip -4 addr show | grep '10\\.0\\.1\\.' | awk '{print $NF}')"
    <> "\n        iptables -t nat " <> flag <> " PREROUTING -i $PUB_IFACE -p tcp --dport " <> port
    <> " -j DNAT --to-destination " <> target <> "\n        iptables -t nat " <> flag
    <> " PREROUTING -i $PUB_IFACE -p udp --dport " <> port <> " -j DNAT --to-destination " <> target
    <> "\n        iptables " <> flag <> " FORWARD -i $PUB_IFACE -o $PRIV_IFACE -p tcp -d "
    <> client_private_ip <> accepted <> "\n        iptables " <> flag
    <> " FORWARD -i $PUB_IFACE -o $PRIV_IFACE -p udp -d " <> client_private_ip <> accepted
    <> "\n    "
