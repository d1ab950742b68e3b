-- ===== src/Tests/SystemdRuns.antt =====
-- The actuator of systemd on a machine that can hold two drop-ins of one unit.
use llmtune.Prelude.{
  ◌≡◌, ◌∙◌, refl, sym, ◌⊎◌, inl, inr, Bool, true, false, ◌&&◌, Option, none, some, List, [], ◌∷◌,
  ◌++◌, Outcome, ok, err, is_ok, Text, codes, text_eq, text_eq_iff, subst, get, All, arith,
  Bool-cases, if◌then◌else◌,
}
use llmtune.Swap.Seams.{Health, Clock}
use llmtune.Swap.Core.{SwapOutcome, swap, swap_dropin}
use llmtune.Swap.Dropins.{marker, collect_dropins, winning_name}
use llmtune.Swap.Systemd.{
  Root, IsRoot, Staged, fresh, file, target, is_at, stage, rollback, systemd_actuator,
}
use llmtune.Swap.Systemd.Restored.{stage-rollback}
use llmtune.Swap.Systemd.Owned.{IsOwn, stage-IsOwn}
use llmtune.Swap.Systemd.Swapped.{
  IsQuiet, IsInstalled, swapped, staged, swap_restores, swap_installs,
}
use llmtune.Tests.SwapRuns.{no_files, qwen, plain, opts, the}

abbrev unit_dir : Text
unit_dir = codes "/etc/systemd/system/u.d"

abbrev first_path : Text × Text
first_path = (unit_dir, codes "old.conf")

abbrev second_path : Text × Text
second_path = (unit_dir, codes "zzzzzz-llmtune.conf")

-- The contents of the two files.
abbrev Pair : Type 0
Pair = Option Text × Option Text

abbrev entry : Text → Option Text → List (Text × Text)
entry name none = []
entry name (some c) = (name, c) ∷ []

abbrev put : Bool → Bool → Option Text → Pair → Outcome (Unit {0}) × Pair
put true second o (a, b) = (ok tt, (o, b))
put false true o (a, b) = (ok tt, (a, o))
put false false o (a, b) = (err (codes "no space"), (a, b))

unfoldable pair_root : Root Pair
unfolding text_eq
pair_root = record {
  mkdir = λ dir w. (ok tt, w);
  write = λ dir name c. put (is_at first_path dir name) (is_at second_path dir name) (some c);
  remove = λ dir name. put (is_at first_path dir name) (is_at second_path dir name) none;
  systemctl = λ args w. (ok tt, w);
  read_dir = λ w dir.
      if text_eq unit_dir dir then entry first_path.1 w.0 ++ entry second_path.1 w.1 else [];
  etc_writable = λ w. true;
}

abbrev either : Bool → Bool → Pair → Option Text
either true second (a, b) = a
either false true (a, b) = b
either false false (a, b) = none

get-first :
    (a b : Option Text) → get first_path.1 (entry first_path.1 a ++ entry second_path.1 b) ≡ a
unfolding get text_eq
get-first none none = refl
get-first none (some d) = refl
get-first (some c) none = refl
get-first (some c) (some d) = refl

get-second :
    (a b : Option Text) → get second_path.1 (entry first_path.1 a ++ entry second_path.1 b) ≡ b
unfolding get text_eq
get-second none none = refl
get-second none (some d) = refl
get-second (some c) none = refl
get-second (some c) (some d) = refl

get-neither :
    (a b : Option Text) (name : Text)
    → text_eq first_path.1 name ≡ false
    → text_eq second_path.1 name ≡ false
    → get name (entry first_path.1 a ++ entry second_path.1 b) ≡ none
unfolding get
get-neither none none name h k = refl
get-neither none (some d) name h k = rw k refl
get-neither (some c) none name h k = rw h refl
get-neither (some c) (some d) name h k = rw (h, k) refl

get-either :
    (a b : Option Text) (name : Text)
    → get name (entry first_path.1 a ++ entry second_path.1 b)
      ≡ either (text_eq first_path.1 name) (text_eq second_path.1 name) (a, b)
get-either a b name = elim (Bool-cases (text_eq first_path.1 name)) [
  | inl one ↦ rw one (
      subst (λ n. get n (entry first_path.1 a ++ entry second_path.1 b) ≡ a)
        ((text_eq_iff first_path.1 name).0 one) (get-first a b))
  | inr not_one ↦ elim (Bool-cases (text_eq second_path.1 name)) [
    | inl two ↦
        rw (not_one, two)
          (subst (λ n. get n (entry first_path.1 a ++ entry second_path.1 b) ≡ b)
            ((text_eq_iff second_path.1 name).0 two) (get-second a b))
    | inr not_two ↦ rw (not_one, not_two) (get-neither a b name not_one not_two)
  ]
]

file-either :
    (w : Pair) (dir name : Text)
    → file pair_root w dir name ≡ either (is_at first_path dir name) (is_at second_path dir name) w
unfolding pair_root
file-either (a, b) dir name = elim (Bool-cases (text_eq unit_dir dir)) [
  | inl inside ↦ rw inside (get-either a b name)
  | inr outside ↦ rw outside (unfold get in refl)
]

-- What is put at a path is what either of the two holds there.
either-put :
    (x y x₀ y₀ : Bool) (o : Option Text) (w : Pair)
    → x && x₀ ≡ false
    → y && y₀ ≡ false
    → either x y (put x₀ y₀ o w).1 ≡ either x y w
either-put true y true y₀ o w h k = cc
either-put false true true y₀ o (a, b) h k = refl
either-put false false true y₀ o (a, b) h k = refl
either-put true true false true o (a, b) h k = refl
either-put true false false true o (a, b) h k = refl
either-put false true false true o (a, b) h k = cc
either-put false false false true o (a, b) h k = refl
either-put x y false false o (a, b) h k = refl

either-put_self :
    (x y : Bool) (o : Option Text) (w : Pair)
    → is_ok (put x y o w).0 ≡ true
    → either x y (put x y o w).1 ≡ o
either-put_self true y o (a, b) h = refl
either-put_self false true o (a, b) h = refl
either-put_self false false o (a, b) h = cc

-- Two places are not both at one path, where one is not at the other.
apart :
    (at path : Text × Text) (dir name : Text)
    → is_at path dir name ≡ false
    → is_at at dir name && is_at at path.0 path.1 ≡ false
apart at path dir name h = ground (
  arith,
  text_eq_iff at.0 dir,
  text_eq_iff at.1 name,
  text_eq_iff at.0 path.0,
  text_eq_iff at.1 path.1,
  text_eq_iff path.0 dir,
  text_eq_iff path.1 name,
)

-- A command puts `o` at a path.
changed : Text × Text → Option Text → Pair → Outcome (Unit {0}) × Pair
changed path o w = put (is_at first_path path.0 path.1) (is_at second_path path.0 path.1) o w

changed_elsewhere :
    (path : Text × Text) (o : Option Text) (w : Pair) (dir name : Text)
    → is_at path dir name ≡ false
    → file pair_root (changed path o w).1 dir name ≡ file pair_root w dir name
unfolding changed
changed_elsewhere path o w dir name h =
    file-either (changed path o w).1 dir name
    ∙ either-put _ _ _ _ o w (apart first_path path dir name h) (apart second_path path dir name h)
    ∙ sym (file-either w dir name)

changed_there :
    (path : Text × Text) (o : Option Text) (w : Pair)
    → is_ok (changed path o w).0 ≡ true
    → file pair_root (changed path o w).1 path.0 path.1 ≡ o
unfolding changed
changed_there path o w h =
    file-either (changed path o w).1 path.0 path.1 ∙ either-put_self _ _ o w h

distinct :
    (w : Pair) (dir : Text)
    → All (λ f. get f.0 (pair_root.read_dir w dir) ≡ some f.1) (pair_root.read_dir w dir)
unfolding pair_root
distinct w dir = elim (Bool-cases (text_eq unit_dir dir)) [
  | inl inside ↦ rw inside (both w.0 w.1)
  | inr outside ↦ rw outside tt
]
  where
    listing : Option Text → Option Text → List (Text × Text)
    listing a b = entry first_path.1 a ++ entry second_path.1 b

    both : (a b : Option Text) → All (λ f. get f.0 (listing a b) ≡ some f.1) (listing a b)
    both none none = tt
    both none (some d) = (get-second none (some d), tt)
    both (some c) none = (get-first (some c) none, tt)
    both (some c) (some d) = (get-first (some c) (some d), (get-second (some c) (some d), tt))

pair_root-IsRoot : IsRoot pair_root
pair_root-IsRoot = record {
  distinct_names = distinct;
  mkdir_keeps = λ made w dir name. unfold pair_root in refl;
  write_keeps = λ path c w dir name h.
      unfold pair_root changed in changed_elsewhere path (some c) w dir name h;
  write_writes = λ path c w h. unfold pair_root changed in changed_there path (some c) w h;
  remove_keeps =
      λ path w dir name h. unfold pair_root changed in changed_elsewhere path none w dir name h;
  remove_removes = λ path w h. unfold pair_root changed in changed_there path none w h;
}

-- An own drop-in stands at the first path.
abbrev one_own : Pair
one_own = (some marker, none)

stage-rollback_example :
    (file pair_root
        (rollback pair_root (codes "u") (stage pair_root (codes "u") marker (one_own, fresh)).1).1.0
        unit_dir
        (codes "old.conf")
      ≡ file pair_root one_own unit_dir (codes "old.conf"))
    ⊎ ((is_ok (stage pair_root (codes "u") marker (one_own, fresh)).0 ≡ false)
        × (is_at (target pair_root (codes "u") one_own) unit_dir (codes "old.conf") ≡ true))
stage-rollback_example =
    stage-rollback pair_root pair_root-IsRoot unit_dir (codes "old.conf") (codes "u") marker one_own
      (unfold pair_root collect_dropins in omega arith) (unfold text_eq in refl)
      (unfold pair_root rollback stage in refl)

-- Where two stood, the second does not come back.
second_lost :
    (rollback pair_root
      (codes "u")
      (stage pair_root (codes "u") marker ((some marker, some marker), fresh)).1).1.0
    ≡ (some marker, none)
unfolding pair_root rollback stage
second_lost = refl

-- Probes that see a server, or none, and change nothing.
abbrev probes : Bool → Health Pair
probes up = record { healthy = λ w. (up, w); served = λ w. (none, w); warm = λ w. w }

abbrev no_time : Clock Pair
no_time = record { sleep = λ t w. w; now = λ w. 0 }

pair_root-IsQuiet : (up : Bool) → IsQuiet pair_root (probes up) no_time
pair_root-IsQuiet up = record {
  systemctl_keeps = λ args w dir name. unfold pair_root in refl;
  healthy_keeps = λ w dir name. refl;
  served_keeps = λ w dir name. refl;
  warm_keeps = λ w dir name. refl;
  sleep_keeps = λ t w dir name. refl;
}

abbrev pair_swap : Bool → Outcome SwapOutcome × (Pair × Staged)
pair_swap up =
    swapped pair_root-IsRoot (pair_root-IsQuiet up) unit_dir (codes "old.conf") no_files []
      (codes "u") qwen plain plain.flags opts one_own

swap_restores_example :
    (file pair_root (pair_swap false).1.0 unit_dir (codes "old.conf")
      ≡ file pair_root one_own unit_dir (codes "old.conf"))
    ⊎ ((is_ok
            (staged pair_root-IsRoot
              (pair_root-IsQuiet false)
              unit_dir
              (codes "old.conf")
              no_files
              []
              (codes "u")
              qwen
              plain
              plain.flags
              opts
              one_own).0
          ≡ false)
        × (is_at (target pair_root (codes "u") one_own) unit_dir (codes "old.conf") ≡ true))
unfolding systemd_actuator
swap_restores_example =
    swap_restores pair_root-IsRoot (pair_root-IsQuiet false) unit_dir (codes "old.conf") no_files []
      (codes "u") qwen plain plain.flags opts one_own (the (pair_swap false).0)
      (unfold pair_root collect_dropins in omega arith) (unfold text_eq in refl)
      (unfold pair_root swap stage rollback in refl) (unfold pair_root swap stage rollback in refl)
      (unfold pair_root swap stage rollback in refl)

swap_installs_example :
    IsInstalled pair_root-IsRoot
      (pair_root-IsQuiet true)
      unit_dir
      (codes "zzzzzz-llmtune.conf")
      no_files
      []
      (codes "u")
      qwen
      plain
      plain.flags
      opts
      (is_at (target pair_root (codes "u") one_own) unit_dir (codes "zzzzzz-llmtune.conf"))
      (swap_dropin no_files [] qwen plain plain.flags opts)
      (file pair_root one_own unit_dir (codes "zzzzzz-llmtune.conf"))
      (file pair_root (pair_swap true).1.0 unit_dir (codes "zzzzzz-llmtune.conf"))
unfolding systemd_actuator
swap_installs_example =
    swap_installs pair_root-IsRoot (pair_root-IsQuiet true) unit_dir (codes "zzzzzz-llmtune.conf")
      no_files [] (codes "u") qwen plain plain.flags opts one_own (the (pair_swap true).0)
      (unfold pair_root collect_dropins in omega arith) (unfold text_eq in refl) refl
      (unfold pair_root swap stage in refl) (unfold pair_root swap stage in refl)

stage-IsOwn_example :
    (file pair_root
        (stage pair_root (codes "u") marker (one_own, fresh)).1.0
        unit_dir
        (codes "old.conf")
      ≡ file pair_root one_own unit_dir (codes "old.conf"))
    ⊎ IsOwn pair_root pair_root-IsRoot unit_dir
        (codes "old.conf")
        (file pair_root one_own unit_dir (codes "old.conf"))
stage-IsOwn_example =
    stage-IsOwn pair_root pair_root-IsRoot unit_dir (codes "old.conf") (codes "u") marker one_own
      fresh (unfold text_eq in refl) (unfold pair_root collect_dropins winning_name text_eq in refl)
