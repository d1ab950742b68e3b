-- ===== src/Tests/TransportRuns.antt =====
-- A remote call whose arguments hold a blank, a quote and nothing at all.
use llmtune.Prelude.{join, Text, codes, List, [], ◌∷◌, ◌++◌, ◌≡◌, none, some}
use llmtune.Transport.{ssh_argv, ssh_options, with_user, host_or_local}
use llmtune.Transport.Shell.{shell_words}
use llmtune.Transport.Quoting.{ssh_argv-words}
use llmtune.Tests.ProxyRuns.{head}

abbrev spaced : List Text
spaced = codes "load" ∷ codes "it's a model" ∷ codes "" ∷ []

ssh_argv-words_example :
    (words : List Text) × (ssh_argv none (record head { host = some (codes "10.0.0.7") }) spaced
      ≡ ssh_options none (record head { host = some (codes "10.0.0.7") })
        ++ (codes "--" ∷ with_user none (host_or_local (some (codes "10.0.0.7"))) ∷ words))
    × (shell_words (join (codes " ") words)
        ≡ some (codes "llmtune" ∷ codes "--json" ∷ codes "node" ∷ spaced))
ssh_argv-words_example = ssh_argv-words none (record head { host = some (codes "10.0.0.7") }) spaced
