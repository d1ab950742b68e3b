-- ===== src/Tests/DropinRuns.antt =====
-- The drop-ins of a unit with files in two directories.
use llmtune.Prelude.{
  ◌≡◌, refl, ◌⊎◌, true, List, [], ◌∷◌, Text, codes, text_eq, text_lt, Any, here, there,
  if◌then◌else◌, ◌++◌,
}
use llmtune.Swap.Dropins.{collect_dropins, scan_dirs, has_conf_extension, winning_name, marker}
use llmtune.Swap.Dropins.Wins.{collect_dropins_win}

abbrev unit : Text
unit = codes "llama.service"

abbrev run_dir : Text
run_dir = codes "/run/systemd/system/llama.service.d"

abbrev marked : Text
marked = codes "# " ++ marker

-- llmtune's own drop-in, and a rival's that sorts behind the usual name.
abbrev listing : Text → List (Text × Text)
unfolding text_eq
listing dir =
    if text_eq dir run_dir
    then (codes "zzzzzz-llmtune.conf", marked)
      ∷ (codes "zzzzzzz-rival.conf", codes "[Service]")
      ∷ []
    else []

rival_beaten :
    winning_name (collect_dropins true listing unit).foreign ≡ codes "zzzzzzz-rivalz-llmtune.conf"
unfolding winning_name collect_dropins
rival_beaten = refl

collect_dropins_win_example :
    Any
      (λ p. (p.dir ≡ run_dir) × (p.name ≡ codes "zzzzzzz-rival.conf"))
      (collect_dropins true listing unit).ours
    ⊎ (text_lt
          (codes "zzzzzzz-rival.conf")
          (winning_name (collect_dropins true listing unit).foreign)
        ≡ true)
unfolding scan_dirs has_conf_extension
collect_dropins_win_example =
    collect_dropins_win true listing unit run_dir (codes "zzzzzzz-rival.conf") (codes "[Service]")
      (there (here refl)) (there (here refl)) refl
