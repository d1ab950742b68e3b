-- ===== src/Config/Accepted.antt =====
-- src/config.rs: what an accepted configuration guarantees, and that its local node is always there.
use llmtune.Prelude.{
  ◌≡◌, ◌∙◌, refl, sym, ap, subst, Bool, true, false, not, Option, none, some, List, [], ◌∷◌,
  Outcome, ok, err, and_next, and_next-ok, require-ok, ok-injective, ◌++◌, Text, codes, map, find,
  find-cases, inl, inr, ◌||◌, any, or_else, All, is_empty, trim, arith,
}
use llmtune.Config.{Transport, local, Node}
use llmtune.Config.Raw.{NodeCfg, ClusterCfg, NetbootCfg, RawConfig}
use llmtune.Config.Netboot.{Netboot, DetectedNet, resolve_netboot_with}
use llmtune.Config.Safe.{IsSafe, resolve_netboot_with-IsSafe}
use llmtune.Config.Fleet.{
  Config, parse_transport, valid_unit_name, some_and, is_option, empty_or_option, node_of,
  checked_node, resolve_node, resolve_nodes, or_localhost, within, localhost, check_clusters,
  optional_netboot, with_nodes, nodes_of, default_unit, default_url, default_models, from_raw,
  is_local, first, local_node,
}

-- What reaches an `ssh` argv, a path or a shell.
pub record IsSafeNode (n : Node) : Type 0 where
  pub host : some_and n.host is_option ≡ false
  pub ssh_user : some_and n.ssh_user is_option ≡ false
  pub llama_unit : valid_unit_name n.llama_unit ≡ true
  pub power_cmd : some_and n.power_cmd (λ c. is_empty (trim c)) ≡ false

abbrev pub IsSafeCluster : ClusterCfg → Type 0
IsSafeCluster c =
    (some_and c.rpc_bin empty_or_option ≡ false) × (some_and c.rpc_bind empty_or_option ≡ false)

abbrev pub IsSafeNetboot : Option Netboot → Type 0
IsSafeNetboot none = Unit
IsSafeNetboot (some r) = IsSafe r

abbrev pub declaration : NodeCfg → Text × Outcome Transport
declaration n = (n.name, parse_transport n.transport)

-- The names with the transports, as the file declares them.
abbrev pub declared : List NodeCfg → List (Text × Outcome Transport)
declared [] = (codes "localhost", ok local) ∷ []
declared (n ∷ ns) = map declaration (n ∷ ns)

abbrev pub resolution : Node → Text × Outcome Transport
resolution n = (n.name, ok n.transport)

pub record IsFleet (raw : RawConfig) (c : Config) : Type 0 where
  pub some_node : is_empty c.nodes ≡ false
  pub nodes : All IsSafeNode c.nodes
  pub transports : map resolution c.nodes ≡ declared raw.nodes
  pub clusters : c.clusters ≡ raw.clusters
  pub safe_clusters : All IsSafeCluster c.clusters
  pub netboot : IsSafeNetboot c.netboot

negated : {b : Bool} → not b ≡ true → b ≡ false
negated {b} h = ground arith

within-ok :
    {A : Type 0} (context : Text) (r : Outcome A) (a : A) → within context r ≡ ok a → r ≡ ok a
within-ok context (ok b) a h = h
within-ok context (err e) a h = cc

abbrev AreNodes : List NodeCfg → List Node → Type 0
AreNodes ns out = (is_empty out ≡ false) × (All IsSafeNode out × (map resolution out ≡ declared ns))

module _ (def_models def_unit def_url : Text) where
  checked_node-IsSafeNode :
      (n : NodeCfg) (t : Transport) (out : Node)
      → checked_node def_models def_unit def_url n t ≡ ok out
      → IsSafeNode out × (resolution out ≡ (n.name, ok t))
  checked_node-IsSafeNode n t out h =
      let (a, h₁) = require-ok (not (some_and n.host is_option)) _ _ out h in
      let (b, h₂) = require-ok (not (some_and n.ssh_user is_option)) _ _ out h₁ in
      let (c, h₃) = require-ok _ _ _ out h₂ in
      let (d, h₄) = require-ok (not (some_and n.power_cmd (λ c. is_empty (trim c)))) _ _ out h₃ in
      subst (λ m. IsSafeNode m × (resolution m ≡ (n.name, ok t)))
        (ok-injective (node_of def_models def_unit def_url n t) out h₄)
        (
          record { host = negated a; ssh_user = negated b; llama_unit = c; power_cmd = negated d },
          refl,
        )

  resolve_node-IsSafeNode :
      (n : NodeCfg) (out : Node)
      → resolve_node def_models def_unit def_url n ≡ ok out
      → IsSafeNode out × (resolution out ≡ declaration n)
  unfolding resolve_node
  resolve_node-IsSafeNode n out h =
      let (t, parsed, h₁) =
        and_next-ok (within (codes "node '" ++ (n.name ++ codes "'")) (parse_transport n.transport))
          (checked_node def_models def_unit def_url n) out h in
      let (safe, same) = checked_node-IsSafeNode n t out h₁ in
      (
        safe,
        same
            ∙ ap (λ r. (n.name, r))
                (sym (
                  within-ok (codes "node '" ++ (n.name ++ codes "'")) (parse_transport n.transport)
                    t parsed)),
      )

  resolve_nodes-All :
      (ns : List NodeCfg) (out : List Node)
      → resolve_nodes def_models def_unit def_url ns ≡ ok out
      → All IsSafeNode out × (map resolution out ≡ map declaration ns)
  unfolding resolve_nodes
  resolve_nodes-All [] out h =
      subst (λ o. All IsSafeNode o × (map resolution o ≡ [])) (ok-injective [] out h) (tt, refl)
  resolve_nodes-All (n ∷ ns) out h =
      let (node, first, h₁) =
        and_next-ok (resolve_node def_models def_unit def_url n)
          (λ node.
            and_next (resolve_nodes def_models def_unit def_url ns) (λ nodes. ok (node ∷ nodes)))
          out h in
      let (nodes, rest, h₂) =
        and_next-ok (resolve_nodes def_models def_unit def_url ns) (λ nodes. ok (node ∷ nodes)) out
          h₁ in
      let (safe, same) = resolve_node-IsSafeNode n node first in
      let (all_safe, all_same) = resolve_nodes-All ns nodes rest in
      subst (λ o. All IsSafeNode o × (map resolution o ≡ map declaration (n ∷ ns)))
        (ok-injective (node ∷ nodes) out h₂)
        (
          (safe, all_safe),
          ap (λ d. d ∷ map resolution nodes) same ∙ ap (λ r. declaration n ∷ r) all_same,
        )

  or_localhost-AreNodes :
      (ns : List NodeCfg) (nodes out : List Node)
      → All IsSafeNode nodes × (map resolution nodes ≡ map declaration ns)
      → or_localhost def_models def_unit def_url nodes ≡ ok out
      → AreNodes ns out
  or_localhost-AreNodes [] [] out (safe, same) h =
      let (valid, h₁) = require-ok (valid_unit_name def_unit) _ _ out h in
      subst (AreNodes []) (ok-injective (localhost def_models def_unit def_url ∷ []) out h₁) (
        refl,
        ((record { host = refl; ssh_user = refl; llama_unit = valid; power_cmd = refl }, tt), refl),
      )
  or_localhost-AreNodes (n ∷ ns) [] out (safe, same) h = cc
  or_localhost-AreNodes [] (m ∷ ms) out (safe, same) h = cc
  or_localhost-AreNodes (n ∷ ns) (m ∷ ms) out (safe, same) h =
      subst (AreNodes (n ∷ ns)) (ok-injective (m ∷ ms) out h) (refl, (safe, same))

check_clusters-ok :
    {B : Type 0} (cs : List ClusterCfg) (next : Outcome B) (b : B)
    → check_clusters cs next ≡ ok b
    → All IsSafeCluster cs × (next ≡ ok b)
check_clusters-ok [] next b h = (tt, h)
check_clusters-ok (c ∷ cs) next b h =
    let (bin, h₁) = require-ok (not (some_and c.rpc_bin empty_or_option)) _ _ b h in
    let (bind, h₂) = require-ok (not (some_and c.rpc_bind empty_or_option)) _ _ b h₁ in
    let (rest, last) = check_clusters-ok cs next b h₂ in (((negated bin, negated bind), rest), last)

module _ (detect : Option DetectedNet) (default_leases : Text) where
  optional_netboot-IsSafeNetboot :
      (n : Option NetbootCfg) (out : Option Netboot)
      → optional_netboot detect default_leases n ≡ ok out
      → IsSafeNetboot out
  optional_netboot-IsSafeNetboot none out h = subst IsSafeNetboot (ok-injective none out h) tt
  optional_netboot-IsSafeNetboot (some n) out h =
      let (r, resolved, h₁) =
        and_next-ok (resolve_netboot_with detect default_leases n) (λ r. ok (some r)) out h in
      subst IsSafeNetboot (ok-injective (some r) out h₁)
        (resolve_netboot_with-IsSafe detect default_leases n r resolved)

  -- A configuration that is accepted has a node; its nodes are those of the file in its order, each
  -- with the transport it names, or the local one where the file has none; no host or user of a
  -- node, and no command or address of a cluster, can be read as an option; every unit name is valid;
  -- no power command is blank; and the netboot section is safe.
  pub from_raw-IsFleet :
      (env : Option Text) (raw : RawConfig) (c : Config)
      → from_raw detect default_leases env raw ≡ ok c
      → IsFleet raw c
  unfolding from_raw
  from_raw-IsFleet env raw c h =
      let (nodes, found, h₁) =
        and_next-ok (nodes_of env raw) (with_nodes detect default_leases raw) c h in
      let (resolved, read, h₂) =
        and_next-ok
          (resolve_nodes (default_models env raw) (default_unit raw) (default_url raw) raw.nodes)
          (or_localhost (default_models env raw) (default_unit raw) (default_url raw)) nodes
          found in
      let (some_node, (safe, same)) =
        or_localhost-AreNodes (default_models env raw) (default_unit raw) (default_url raw)
          raw.nodes resolved nodes
          (resolve_nodes-All (default_models env raw) (default_unit raw) (default_url raw) raw.nodes
            resolved read)
          h₂ in
      let (clusters, h₃) = check_clusters-ok raw.clusters _ c h₁ in
      let (netboot, net, h₄) =
        and_next-ok (optional_netboot detect default_leases raw.netboot)
          (λ netboot. ok (record { nodes = nodes; clusters = raw.clusters; netboot = netboot })) c
          h₃ in
      subst (IsFleet raw) (ok-injective _ c h₄) (record {
        some_node = some_node;
        nodes = safe;
        transports = same;
        clusters = refl;
        safe_clusters = clusters;
        netboot = optional_netboot-IsSafeNetboot raw.netboot netboot net;
      })

  first_local :
      (nodes : List Node)
      → is_empty nodes ≡ false
      → (n : Node) × (or_else (find is_local nodes) (first nodes) ≡ some n)
        × (any is_local nodes ≡ is_local n)
  first_local [] h = cc
  first_local (m ∷ ms) h = elim (find-cases is_local (m ∷ ms)) [
    | inl (missed, nowhere) ↦ (m, ap (λ o. or_else o (some m)) missed, none_local m nowhere)
    | inr (n, found, hit, somewhere) ↦ (n, ap (λ o. or_else o (some m)) found, somewhere ∙ sym hit)
  ]
    where
      none_local :
          (m : Node)
          → (is_local m || any is_local ms) ≡ false
          → (is_local m || any is_local ms) ≡ is_local m
      none_local m h = ground arith

  -- An accepted configuration has a local node, so that its lookup never panics; it is one whose
  -- transport is local where there is one.
  pub local_node_total :
      (env : Option Text) (raw : RawConfig) (c : Config)
      → from_raw detect default_leases env raw ≡ ok c
      → (n : Node) × (local_node c ≡ some n) × (any is_local c.nodes ≡ is_local n)
  unfolding local_node
  local_node_total env raw c h = first_local c.nodes (from_raw-IsFleet env raw c h).some_node
