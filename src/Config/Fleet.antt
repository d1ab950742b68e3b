-- ===== src/Config/Fleet.antt =====
-- src/config.rs: `from_raw`, which checks the file and applies its defaults, and the lookups. The
-- variable LLMTUNE_MODELS_DIR and what the netboot section needs of the host are arguments.
use llmtune.Prelude.{
  Bool, true, false, not, ◌&&◌, ◌||◌, Option, none, some, List, [], ◌∷◌, ◌++◌, ◌==◌, Outcome, ok,
  err, and_next, require, or_else, find, all, any, is_empty, Text, codes, text_eq, starts_with,
  ends_with, contains, to_lowercase, trim, if◌then◌else◌,
}
use llmtune.Build.Slug.{is_alphanumeric}
use llmtune.Config.{Transport, local, ssh, agent, Node}
use llmtune.Config.Raw.{NodeCfg, ClusterCfg, NetbootCfg, RawConfig}
use llmtune.Config.Checks.{or}
use llmtune.Config.Netboot.{Netboot, DetectedNet, resolve_netboot_with}

pub record Config : Type 0 where
  pub nodes : List Node
  pub clusters : List ClusterCfg
  pub netboot : Option Netboot

abbrev transport_of : Text → Outcome Transport
transport_of s =
    if is_empty s || text_eq s (codes "local")
    then ok local
    else if text_eq s (codes "ssh")
    then ok ssh
    else if text_eq s (codes "agent")
    then ok agent
    else err (codes "unknown transport '" ++ (s ++ codes "' (expected local, ssh, or agent)"))

-- `Transport::parse`
unfoldable pub parse_transport : Option Text → Outcome Transport
unfolding text_eq to_lowercase
parse_transport none = ok local
parse_transport (some s) = transport_of (to_lowercase s)

unfoldable pub valid_unit_name : Text → Bool
unfolding ends_with contains
valid_unit_name s =
    not (is_empty s)
    && ends_with s (codes ".service")
    && not (any (λ c. c == b'/') s)
    && not (contains s (codes ".."))
    && all (λ c. is_alphanumeric c || any (λ d. d == c) (codes ":_@.-")) s

abbrev default_models_dir : Option Text → Text
default_models_dir env = or env (codes "/var/lib/llmtune/models")

-- `is_some_and`
abbrev pub some_and : Option Text → (Text → Bool) → Bool
some_and none p = false
some_and (some s) p = p s

unfoldable pub is_option : Text → Bool
unfolding starts_with
is_option s = starts_with s (codes "-")

abbrev of_node : Text → Text → Text
of_node name why = codes "node '" ++ (name ++ (codes "': " ++ why))

abbrev of_cluster : Text → Text → Text
of_cluster name why = codes "cluster '" ++ (name ++ (codes "': " ++ why))

-- `.with_context(...)`: the context stands before the error.
abbrev pub within {ℓ} : {A : Type ℓ} → Text → Outcome A → Outcome A
within context (ok a) = ok a
within context (err e) = err (context ++ (codes ": " ++ e))

module _ (def_models def_unit def_url : Text) where
  abbrev pub node_of : NodeCfg → Transport → Node
  node_of n transport = record {
    name = n.name;
    host = n.host;
    transport = transport;
    ssh_user = n.ssh_user;
    ssh_key = n.ssh_key;
    models_dir = or n.models_dir def_models;
    llama_unit = or n.llama_unit def_unit;
    llama_url = or n.llama_url def_url;
    power_cmd = n.power_cmd;
  }

  abbrev pub checked_node : NodeCfg → Transport → Outcome Node
  checked_node n transport =
      require (not (some_and n.host is_option))
        (of_node n.name (codes "host may not start with '-'"))
        (require (not (some_and n.ssh_user is_option))
          (of_node n.name (codes "ssh_user may not start with '-'"))
          (require (valid_unit_name (or n.llama_unit def_unit))
            (of_node n.name (
              codes "invalid llama_unit '"
              ++ (or n.llama_unit def_unit
                  ++ codes "' (must be a systemd unit name ending in .service, no '/' or '..')")))
            (require (not (some_and n.power_cmd (λ c. is_empty (trim c))))
              (of_node n.name (codes "power_cmd is empty (omit it for a manual cold cycle)"))
              (ok (node_of n transport)))))

  unfoldable pub resolve_node : NodeCfg → Outcome Node
  unfolding parse_transport is_option valid_unit_name trim
  resolve_node n =
      and_next (within (codes "node '" ++ (n.name ++ codes "'")) (parse_transport n.transport))
        (checked_node n)

  unfoldable pub resolve_nodes : List NodeCfg → Outcome (List Node)
  unfolding resolve_node
  resolve_nodes [] = ok []
  resolve_nodes (n ∷ ns) =
      and_next (resolve_node n) (λ node. and_next (resolve_nodes ns) (λ nodes. ok (node ∷ nodes)))

  abbrev pub localhost : Node
  localhost = record {
    name = codes "localhost";
    host = none;
    transport = local;
    ssh_user = none;
    ssh_key = none;
    models_dir = def_models;
    llama_unit = def_unit;
    llama_url = def_url;
    power_cmd = none;
  }

  -- Where the file names no node, the local one.
  abbrev pub or_localhost : List Node → Outcome (List Node)
  or_localhost [] =
      require (valid_unit_name def_unit)
        (codes "invalid default llama_unit '"
          ++ (def_unit ++ codes "' (must end in .service, no '/' or '..')"))
        (ok (localhost ∷ []))
  or_localhost (n ∷ ns) = ok (n ∷ ns)

abbrev pub empty_or_option : Text → Bool
empty_or_option s = is_empty s || is_option s

abbrev pub check_clusters : {B : Type 0} → List ClusterCfg → Outcome B → Outcome B
check_clusters [] next = next
check_clusters (c ∷ cs) next =
    require (not (some_and c.rpc_bin empty_or_option))
      (of_cluster c.name (codes "rpc_bin may not be empty or start with '-'"))
      (require (not (some_and c.rpc_bind empty_or_option))
        (of_cluster c.name (codes "rpc_bind may not be empty or start with '-'"))
        (check_clusters cs next))

abbrev pub default_unit : RawConfig → Text
default_unit raw = or raw.defaults.llama_unit (codes "llama-server.service")

abbrev pub default_url : RawConfig → Text
default_url raw = or raw.defaults.llama_url (codes "http://127.0.0.1:8080")

abbrev pub default_models : Option Text → RawConfig → Text
default_models env raw = or raw.defaults.models_dir (default_models_dir env)

-- The nodes of the file, resolved.
abbrev pub nodes_of : Option Text → RawConfig → Outcome (List Node)
nodes_of env raw =
    and_next (resolve_nodes (default_models env raw) (default_unit raw) (default_url raw) raw.nodes)
      (or_localhost (default_models env raw) (default_unit raw) (default_url raw))

module _ (detect : Option DetectedNet) (default_leases : Text) where
  abbrev pub optional_netboot : Option NetbootCfg → Outcome (Option Netboot)
  optional_netboot none = ok none
  optional_netboot (some n) =
      and_next (resolve_netboot_with detect default_leases n) (λ r. ok (some r))

  abbrev pub with_nodes : RawConfig → List Node → Outcome Config
  with_nodes raw nodes = check_clusters raw.clusters (
      and_next (optional_netboot raw.netboot)
        (λ netboot. ok (record { nodes = nodes; clusters = raw.clusters; netboot = netboot })))

  unfoldable pub from_raw : Option Text → RawConfig → Outcome Config
  unfolding resolve_nodes resolve_netboot_with valid_unit_name is_option
  from_raw env raw = and_next (nodes_of env raw) (with_nodes raw)

abbrev pub is_local : Node → Bool
is_local n = elim n.transport [ local ↦ true | _ ↦ false ]

abbrev pub first : List Node → Option Node
first [] = none
first (n ∷ ns) = some n

-- `none` is the panic of the index, where there is no node.
unfoldable pub local_node : Config → Option Node
local_node c = or_else (find is_local c.nodes) (first c.nodes)

unfoldable pub node : Config → Text → Option Node
unfolding text_eq
node c name = find (λ n. text_eq n.name name) c.nodes

unfoldable pub cluster : Config → Text → Option ClusterCfg
unfolding text_eq
cluster c name = find (λ k. text_eq k.name name) c.clusters
