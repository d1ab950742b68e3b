-- ===== src/Swap/Mounts/Innermost.antt =====
-- src/swap.rs: which mount decides in `mounted_ro`.
use llmtune.Prelude.{
  ℕ, ◌≤◌, ◌<◌, leb, ◌≡◌, ◌∙◌, refl, sym, ap, subst, Bool, true, false, Option, none, some, List, [],
  ◌∷◌, ◌++◌, append_assoc, append-nil, All, arith, Bool-cases, inl, inr, if◌then◌else◌, Text, lines,
}
use llmtune.Swap.Mounts.{better, best_mount, containing}

All-snoc {ℓ κ} :
    {A : Type ℓ} (P : A → Type κ) (xs : List A) (x : A) → All P xs → P x → All P (xs ++ x ∷ [])
All-snoc P [] x h p = (p, tt)
All-snoc P (y ∷ xs) x (q, h) p = (q, All-snoc P xs x h p)

-- The last of the longest mounts; none only of none.
abbrev pub IsInnermost : Option (ℕ × Bool) → List (ℕ × Bool) → Type 0
IsInnermost none ms = ms ≡ []
IsInnermost (some b) ms =
    (before : List (ℕ × Bool)) × (after : List (ℕ × Bool)) × (ms ≡ before ++ b ∷ after)
    × All (λ m. m.0 ≤ b.0) before
    × All (λ m. m.0 < b.0) after

longest :
    (b : ℕ × Bool) (before after : List (ℕ × Bool)) (n : ℕ)
    → All (λ m. m.0 ≤ b.0) before
    → All (λ m. m.0 < b.0) after
    → b.0 ≤ n
    → All (λ m. m.0 ≤ n) (before ++ b ∷ after)
longest b [] [] n h g e = (e, tt)
longest b [] (m ∷ after) n h (k, g) e = (e, (omega arith, rest after g))
  where
    rest : (ms : List (ℕ × Bool)) → All (λ m. m.0 < b.0) ms → All (λ m. m.0 ≤ n) ms
    rest [] g = tt
    rest (m ∷ ms) (k, g) = (omega arith, rest ms g)
longest b (m ∷ before) after n (k, h) g e = (omega arith, longest b before after n h g e)

better-IsInnermost :
    (b : Option (ℕ × Bool)) (m : ℕ × Bool) (seen : List (ℕ × Bool))
    → IsInnermost b seen
    → IsInnermost (better b m) (seen ++ m ∷ [])
better-IsInnermost none m seen h = ([], [], ap (λ s. s ++ m ∷ []) h, tt, tt)
better-IsInnermost (some b) m seen (before, after, e, h, g) = elim (Bool-cases (leb b.0 m.0)) [
  | inl longer ↦
      subst (λ c. IsInnermost c (seen ++ m ∷ []))
        (sym (chosen_true (leb b.0 m.0) (some m) (some b) longer))
        (
          seen,
          [],
          refl,
          subst (All (λ k. k.0 ≤ m.0)) (sym e) (longest b before after m.0 h g (ground arith)),
          tt,
        )
  | inr shorter ↦
      subst (λ c. IsInnermost c (seen ++ m ∷ []))
        (sym (chosen_false (leb b.0 m.0) (some m) (some b) shorter))
        (
          before,
          after ++ m ∷ [],
          ap (λ s. s ++ m ∷ []) e ∙ append_assoc before (b ∷ after) (m ∷ []),
          h,
          All-snoc _ after m g (ground arith),
        )
]
  where
    chosen_true : (c : Bool) (x y : Option (ℕ × Bool)) → c ≡ true → (if c then x else y) ≡ x
    chosen_true c x y e = rw e

    chosen_false : (c : Bool) (x y : Option (ℕ × Bool)) → c ≡ false → (if c then x else y) ≡ y
    chosen_false c x y e = rw e

best-IsInnermost :
    (b : Option (ℕ × Bool)) (ms seen : List (ℕ × Bool))
    → IsInnermost b seen
    → IsInnermost (best_mount b ms) (seen ++ ms)
unfolding best_mount
best-IsInnermost b [] seen h = subst (IsInnermost b) (sym (append-nil seen)) h
best-IsInnermost b (m ∷ ms) seen h =
    subst (IsInnermost (best_mount (better b m) ms)) (append_assoc seen (m ∷ []) ms)
      (best-IsInnermost (better b m) ms (seen ++ m ∷ []) (better-IsInnermost b m seen h))

-- The mount that decides whether a path is read-only is, among the mounts that contain the path,
-- the last one of the longest: none before it is longer, and those behind it are all shorter. There
-- is none only where no mount contains the path.
pub best_mount-IsInnermost :
    (mounts path : Text)
    → let ms = containing path (lines mounts) in IsInnermost (best_mount none ms) ms
best_mount-IsInnermost mounts path = best-IsInnermost none (containing path (lines mounts)) [] refl
