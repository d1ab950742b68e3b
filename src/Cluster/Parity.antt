-- ===== src/Cluster/Parity.antt =====
-- src/cluster.rs: the texts of a cluster's launch, and the check that all nodes run one build.
use llmtune.Prelude.{
  ℕ, ◌≡◌, ◌∙◌, refl, sym, ap, Bool, true, false, not, Option, none, some, List, [], ◌∷◌, ◌++◌, Text,
  codes, text_eq, text_eq_iff, join, show, map, filter, is_empty, All, Any, here, there, arith,
  if◌then◌else◌, inl, inr, Bool-cases, parent,
}
use mathlib.Core.Logic.{◌↔◌}
use llmtune.Config.{Node}

abbrev pub text_or : Option Text → Text → Text
text_or none d = d
text_or (some s) d = s

unfoldable pub worker_endpoint : Node → ℕ → Text
unfolding show
worker_endpoint node port = text_or node.host node.name ++ (codes ":" ++ show port)

unfoldable pub inject_rpc : Text → List Text → Text
unfolding join
inject_rpc flags endpoints =
    if is_empty endpoints then flags else flags ++ (codes " --rpc " ++ join (codes ",") endpoints)

abbrev at_host : Option Text → Text → Text
at_host none host = host
at_host (some u) host = u ++ (codes "@" ++ host)

unfoldable pub ssh_target : Node → Text
ssh_target node = at_host node.ssh_user (text_or node.host node.name)

abbrev library_env : Option Text → List Text
library_env none = []
library_env (some []) = []
library_env (some (c ∷ dir)) = (codes "--setenv=LD_LIBRARY_PATH=" ++ c ∷ dir) ∷ []

unfoldable pub start_argv : Text → Text → Text → ℕ → List Text
unfolding parent show
start_argv unit rpc_bin bind port =
    (codes "systemd-run" ∷ codes "--unit" ∷ unit ∷ codes "--collect" ∷ [])
    ++ (library_env (parent rpc_bin) ++ (rpc_bin ∷ codes "-H" ∷ bind ∷ codes "-p" ∷ show port ∷ []))

pub data Parity : Type 0 where
  matched : Parity
  mismatch : Text → Parity
  unverified : Text → Parity

-- Whether a worker reports another version than the head's.
abbrev pub is_skewed : Text → Text × Option Text → Bool
is_skewed head (n, none) = false
is_skewed head (n, some v) = not (text_eq v head)

abbrev pub is_unknown : Text × Option Text → Bool
is_unknown (n, none) = true
is_unknown (n, some v) = false

abbrev skew_text : Text × Option Text → Text
skew_text (n, v) = n ++ (codes "=" ++ text_or v (codes "?"))

abbrev name_of : Text × Option Text → Text
name_of (n, v) = n

abbrev skew_detail : Text → Text → List (Text × Option Text) → Text
skew_detail build head ws =
    codes "head has build `"
    ++ (build ++ (codes "` " ++ (head ++ (codes ", but " ++ join (codes ", ") (map skew_text ws)))))

-- `check_parity` once the head's version is known, by the skewed and the unknown workers.
abbrev pub parity_of : Text → Text → List (Text × Option Text) → List (Text × Option Text) → Parity
parity_of build head (w ∷ ws) unknown = mismatch (skew_detail build head (w ∷ ws))
parity_of build head [] (u ∷ us) = unverified (
    codes "could not determine build `"
    ++ (build
        ++ (codes "` version on: "
            ++ (join (codes ", ") (map name_of (u ∷ us))
                ++ codes
                    " (build not installed there, or an older llmtune without `node build-version`)"))))
parity_of build head [] [] = matched

unfoldable pub check_parity : Text → Option Text → List (Text × Option Text) → Parity
unfolding text_eq join
check_parity build none workers =
    unverified (codes "build `" ++ (build ++ codes "` is not installed on the head"))
check_parity build (some head) workers =
    parity_of build head (filter (is_skewed head) workers) (filter is_unknown workers)

module _ {ℓ} {A : Type ℓ} (p : A → Bool) where
  filter-hit : (x : A) (xs : List A) → p x ≡ true → filter p (x ∷ xs) ≡ x ∷ filter p xs
  filter-hit x xs h = rw h

  filter-miss : (x : A) (xs : List A) → p x ≡ false → filter p (x ∷ xs) ≡ filter p xs
  filter-miss x xs h = rw h

  filter-empty : (xs : List A) → filter p xs ≡ [] → All (λ x. p x ≡ false) xs
  filter-empty [] h = tt
  filter-empty (x ∷ xs) h = elim (Bool-cases (p x)) [
    | inl hit ↦ cc (filter-hit x xs hit)
    | inr miss ↦ (miss, filter-empty xs (sym (filter-miss x xs miss) ∙ h))
  ]

  empty-filter : (xs : List A) → All (λ x. p x ≡ false) xs → filter p xs ≡ []
  empty-filter [] h = refl
  empty-filter (x ∷ xs) (miss, h) = filter-miss x xs miss ∙ empty-filter xs h

  filter-Any :
      (xs : List A) → Any (λ x. p x ≡ true) xs → (y : A) × (ys : List A) × (filter p xs ≡ y ∷ ys)
  filter-Any [] h = elim h [ ]
  filter-Any (x ∷ xs) (here h) = (x, filter p xs, filter-hit x xs h)
  filter-Any (x ∷ xs) (there h) = elim (Bool-cases (p x)) [
    | inl hit ↦ (x, filter p xs, filter-hit x xs hit)
    | inr miss ↦ let (y, ys, e) = filter-Any xs h in (y, ys, filter-miss x xs miss ∙ e)
  ]

Any-filter {ℓ} :
    {A : Type ℓ} (p : A → Bool) (xs : List A) (y : A) (ys : List A)
    → filter p xs ≡ y ∷ ys
    → Any (λ x. p x ≡ true) xs
Any-filter p [] y ys h = cc
Any-filter p (x ∷ xs) y ys h = elim (Bool-cases (p x)) [
  | inl hit ↦ here hit
  | inr miss ↦ there (Any-filter p xs y ys (sym (filter-miss p x xs miss) ∙ h))
]

parity_of-matched :
    (build head : Text) (s u : List (Text × Option Text))
    → parity_of build head s u ≡ matched
    → (s ≡ []) × (u ≡ [])
parity_of-matched build head (w ∷ ws) u h = cc
parity_of-matched build head [] (w ∷ us) h = cc
parity_of-matched build head [] [] h = (refl, refl)

same_version :
    (head : Text) (w : Text × Option Text)
    → (is_skewed head w ≡ false)
    → (is_unknown w ≡ false)
    → w.1 ≡ some head
same_version head (n, none) s u = cc
same_version head (n, some v) s u = ap some ((text_eq_iff v head).0 (ground arith))

same_versions :
    (head : Text) (ws : List (Text × Option Text))
    → All (λ w. is_skewed head w ≡ false) ws
    → All (λ w. is_unknown w ≡ false) ws
    → All (λ w. w.1 ≡ some head) ws
same_versions head [] s u = tt
same_versions head (w ∷ ws) (s, ss) (u, us) = (same_version head w s u, same_versions head ws ss us)

not_skewed :
    (head : Text) (w : Text × Option Text)
    → w.1 ≡ some head
    → (is_skewed head w ≡ false) × (is_unknown w ≡ false)
not_skewed head (n, none) h = cc
not_skewed head (n, some v) h = (ground (arith, text_eq_iff v head), refl)

agreed :
    (head : Text) (ws : List (Text × Option Text))
    → All (λ w. w.1 ≡ some head) ws
    → All (λ w. is_skewed head w ≡ false) ws × All (λ w. is_unknown w ≡ false) ws
agreed head [] h = (tt, tt)
agreed head (w ∷ ws) (e, h) =
    let (s, u) = not_skewed head w e in let (ss, us) = agreed head ws h in ((s, ss), (u, us))

Any-skewed :
    (build head : Text) (workers : List (Text × Option Text))
    → (detail : Text) × (parity_of build head
          (filter (is_skewed head) workers)
          (filter is_unknown workers)
        ≡ mismatch detail)
    → Any (λ w. is_skewed head w ≡ true) workers
Any-skewed build head workers (detail, h) =
    go (filter (is_skewed head) workers) (filter is_unknown workers) refl h
  where
    go :
        (s u : List (Text × Option Text))
        → filter (is_skewed head) workers ≡ s
        → parity_of build head s u ≡ mismatch detail
        → Any (λ w. is_skewed head w ≡ true) workers
    go (w ∷ s) u e h = Any-filter (is_skewed head) workers w s e
    go [] (w ∷ u) e h = cc
    go [] [] e h = cc

-- With a build on the head: the check passes exactly where every worker reports the head's
-- version, and says that there is a mismatch exactly where some worker reports another version,
-- whatever else is unknown.
pub check_parity_exact :
    (build head : Text) (workers : List (Text × Option Text))
    → ((check_parity build (some head) workers ≡ matched) ↔ All (λ w. w.1 ≡ some head) workers)
      × (((detail : Text) × (check_parity build (some head) workers ≡ mismatch detail))
          ↔ Any (λ w. is_skewed head w ≡ true) workers)
unfolding check_parity
check_parity_exact build head workers = (
  (
    (λ h.
        let (s, u) = parity_of-matched build head _ _ h in
        same_versions head workers (filter-empty (is_skewed head) workers s)
          (filter-empty is_unknown workers u)),
    (λ h.
        let (s, u) = agreed head workers h in
        rw (empty-filter (is_skewed head) workers s, empty-filter is_unknown workers u)),
  ),
  (
    (λ h. Any-skewed build head workers h),
    (λ h.
        let (y, ys, e) = filter-Any (is_skewed head) workers h in
        (skew_detail build head (y ∷ ys), rw e)),
  ),
)
