-- ===== src/Build/Back.antt =====
-- src/build.rs: the version that `rollback` goes back to.
use llmtune.Prelude.{
  ◌≡◌, ◌∙◌, refl, sym, ap, subst, Bool, true, false, ◌&&◌, ◌||◌, Option, none, some, List, [], ◌∷◌,
  Outcome, ok, err, Text, text_eq, text_eq_iff, find, All, member, or_else, arith, Bool-cases, inl,
  inr, if◌then◌else◌,
}
use mathlib.Core.List.{reverse}
use llmtune.Build.Versions.{
  RollbackOutcome, Tree, Disk, is_current, flip_current, linked, installed_slugs, to_set,
}
use llmtune.Build.Gc.{member-to_set}
use llmtune.Build.Install.{rollback, rollback_target, roll_to, rolled, is_other}

module _ (p : Text → Bool) where
  find-holds :
      (xs : List Text) (s : Text) → find p xs ≡ some s → (p s ≡ true) × (member s xs ≡ true)
  unfolding member
  find-holds [] s h = cc
  find-holds (x ∷ xs) s h = elim (Bool-cases (p x)) [
    | inl hit ↦ hit_here s hit (sym (found x hit) ∙ h)
    | inr miss ↦ let (q, m) = find-holds xs s (sym (passed x miss) ∙ h) in (q, ground arith)
  ]
    where
      found : (x : Text) → p x ≡ true → (if p x then some x else find p xs) ≡ some x
      found x e = rw e

      passed : (x : Text) → p x ≡ false → (if p x then some x else find p xs) ≡ find p xs
      passed x e = rw e

      same : (s : Text) → some x ≡ some s → x ≡ s
      same s e = cc

      hit_here :
          (s : Text)
          → p x ≡ true
          → some x ≡ some s
          → (p s ≡ true) × ((text_eq x s || member s xs) ≡ true)
      hit_here s hit e =
          (subst (λ n. p n ≡ true) (same s e) hit, ground (arith, (text_eq_iff x s).1 (same s e)))

  find-none : (xs : List Text) → find p xs ≡ none → All (λ s. p s ≡ false) xs
  find-none [] h = tt
  find-none (x ∷ xs) h = elim (Bool-cases (p x)) [
    | inl hit ↦ cc (found x hit)
    | inr miss ↦ (miss, find-none xs (sym (passed x miss) ∙ h))
  ]
    where
      found : (x : Text) → p x ≡ true → (if p x then some x else find p xs) ≡ some x
      found x e = rw e

      passed : (x : Text) → p x ≡ false → (if p x then some x else find p xs) ≡ find p xs
      passed x e = rw e

-- An installed version that is not current.
abbrev pub IsPrior : Tree → Text → Type 0
IsPrior t s = (is_current t.current s ≡ false) × (member s (installed_slugs t.versions) ≡ true)

target-IsPrior : (t : Tree) (s : Text) → rollback_target t ≡ some s → IsPrior t s
unfolding rollback_target
target-IsPrior t s h = go (find newest (reverse t.ledger)) refl h
  where
    set : List Text
    set = to_set (installed_slugs t.versions)

    newest : Text → Bool
    newest x = is_other t.current x && member x set

    named : (x : Text) → some x ≡ some s → x ≡ s
    named x e = cc

    go :
        (o : Option Text)
        → find newest (reverse t.ledger) ≡ o
        → or_else o (find (is_other t.current) set) ≡ some s
        → IsPrior t s
    go none e k =
        let (p, m) = find-holds (is_other t.current) set s k in
        (ground arith, sym (member-to_set s (installed_slugs t.versions)) ∙ m)
    go (some x) e k =
        let (p, m) = find-holds newest (reverse t.ledger) s (e ∙ k) in
        (ground arith, sym (member-to_set s (installed_slugs t.versions)) ∙ ground arith)

-- A rollback that succeeds has made an installed version current that was not, and changed nothing
-- else; its outcome names that version, and the one before.
pub rollback-IsPrior :
    (disk : Disk) (name : Text) (locked : Bool) (t : Tree) (out : RollbackOutcome)
    → (rollback disk name locked t).0 ≡ ok out
    → IsPrior t out.to
      × (out.from ≡ t.current)
      × ((rollback disk name locked t).1 ≡ record t { current = some out.to })
unfolding rollback
rollback-IsPrior disk name false t out h = cc
rollback-IsPrior disk name true t out h = chosen (rollback_target t) refl h
  where
    moved :
        (to : Text)
        → IsPrior t to
        → (r : Outcome (Unit {0})) → (rolled name t.current to (linked disk to t r)).0 ≡ ok out
        → IsPrior t out.to
          × (out.from ≡ t.current)
          × ((rolled name t.current to (linked disk to t r)).1 ≡ record t { current = some out.to })
    moved to p (err e) k = cc
    moved to p (ok x) k =
        let e : to ≡ out.to = ap to_of k in
        (subst (IsPrior t) e p, sym (ap from_of k), ap (λ c. record t { current = some c }) e)
      where
        to_of : Outcome RollbackOutcome → Text
        to_of (ok o) = o.to
        to_of (err m) = out.to

        from_of : Outcome RollbackOutcome → Option Text
        from_of (ok o) = o.from
        from_of (err m) = out.from

    chosen :
        (o : Option Text)
        → rollback_target t ≡ o
        → (roll_to disk name o t).0 ≡ ok out
        → IsPrior t out.to
          × (out.from ≡ t.current)
          × ((roll_to disk name o t).1 ≡ record t { current = some out.to })
    chosen none e k = cc
    chosen (some to) e k = unfold flip_current in moved to (target-IsPrior t to e) (disk.link to) k
