-- ===== src/Transport.antt =====
-- src/transport.rs: the command line of a remote call.
pub mod Shell
pub mod Quoting
use llmtune.Prelude.{
  ℕ, Bool, true, false, not, ◌&&◌, ◌||◌, Option, none, some, List, [], ◌∷◌, ◌++◌, Text, codes,
  text_eq, ◌==◌, trim, is_empty, all, any, map, if◌then◌else◌,
}
use llmtune.Build.Slug.{is_alphanumeric}
use llmtune.Config.{Node}
use llmtune.Swap.Flags.{replace}

-- The characters that `sh_quote` leaves as they are.
unfoldable pub is_plain : ℕ → Bool
is_plain c = is_alphanumeric c || any (λ d. d == c) (codes "_@%+=:,./-")

unfoldable pub sh_quote : Text → Text
unfolding is_plain replace
sh_quote s =
    if not (is_empty s) && all is_plain s
    then s
    else b'\'' ∷ replace s (codes "'") (codes "'\\''") ++ codes "'"

abbrev is_yes : Option Text → Bool
is_yes none = false
is_yes (some v) =
    let t = trim v in text_eq t (codes "yes") || text_eq t (codes "1") || text_eq t (codes "true")

-- The argument is the value of `LLMTUNE_SSH_STRICT`.
unfoldable pub hostkey_policy_from : Option Text → Text
unfolding trim text_eq
hostkey_policy_from v = if is_yes v then codes "yes" else codes "accept-new"

abbrev key_args : Option Text → List Text
key_args none = []
key_args (some k) = codes "-i" ∷ k ∷ []

abbrev pub host_or_local : Option Text → Text
host_or_local none = codes "localhost"
host_or_local (some h) = h

abbrev pub with_user : Option Text → Text → Text
with_user none host = host
with_user (some u) host = u ++ (codes "@" ++ host)

unfoldable pub ssh_options : Option Text → Node → List Text
unfolding hostkey_policy_from
ssh_options strict node =
    (codes "-o"
      ∷ codes "BatchMode=yes"
      ∷ codes "-o"
      ∷ codes "ConnectTimeout=8"
      ∷ codes "-o"
      ∷ (codes "StrictHostKeyChecking=" ++ hostkey_policy_from strict)
      ∷ codes "-o"
      ∷ codes "ServerAliveInterval=5"
      ∷ codes "-o"
      ∷ codes "ServerAliveCountMax=3"
      ∷ [])
    ++ key_args node.ssh_key

unfoldable pub ssh_argv : Option Text → Node → List Text → List Text
unfolding ssh_options sh_quote
ssh_argv strict node remote_args =
    ssh_options strict node
    ++ (codes "--"
        ∷ with_user node.ssh_user (host_or_local node.host)
        ∷ codes "llmtune"
        ∷ codes "--json"
        ∷ codes "node"
        ∷ map sh_quote remote_args)
