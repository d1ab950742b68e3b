-- ===== src/Prelude/Chars.antt =====
-- Texts none of whose characters satisfy a test.
use mathlib.Core.Path.{◌≡◌}
use mathlib.Core.Logic.{inl, inr}
use mathlib.Core.Bool.{Bool, true, false, not, ◌&&◌}
use mathlib.Core.List.{[], ◌∷◌, ◌++◌}
use native.Mathlib.Omega.{arith}
use llmtune.Prelude.Tests.{◌==◌, ltb, Bool-cases, if◌then◌else◌}
use Prim.Native.Nat.{ℕ, zero, suc, ◌/◌}
use llmtune.Prelude.Lists.{All}
use llmtune.Prelude.Texts.{Text, newline}
use mathlib.Core.Option.{Option, none, some}
use llmtune.Prelude.Paths.{
  slash, keep_slash, trim_slashes, place, split_last, parent, parent_of, parent_trimmed, or_root,
}
use llmtune.Prelude.Decimal.{digits, show}

abbrev pub Lacks : (ℕ → Bool) → Text → Type 0
Lacks p s = All (λ c. p c ≡ false) s

abbrev pub lacks : (ℕ → Bool) → Text → Bool
lacks p [] = true
lacks p (c ∷ s) = not (p c) && lacks p s

pub lacks_sound : (p : ℕ → Bool) (s : Text) → lacks p s ≡ true → Lacks p s
lacks_sound p [] h = tt
lacks_sound p (c ∷ s) h = (ground arith, lacks_sound p s (ground arith))

pub Lacks-append : (p : ℕ → Bool) (s t : Text) → Lacks p s → Lacks p t → Lacks p (s ++ t)
Lacks-append p [] t h k = k
Lacks-append p (c ∷ s) t (first, rest) k = (first, Lacks-append p s t rest k)

Lacks-if :
    (p : ℕ → Bool) (b : Bool) (s t : Text) → Lacks p s → Lacks p t → Lacks p (if b then s else t)
Lacks-if p true s t h k = h
Lacks-if p false s t h k = k

digits-Lacks : (f n : ℕ) → Lacks (λ c. c == newline) (digits f n)
unfolding digits
digits-Lacks zero n = tt
digits-Lacks (suc f) n =
    Lacks-if (λ c. c == newline) (ltb n 10) _ _ (ground arith, tt)
      (Lacks-append (λ c. c == newline) (digits f (n / 10)) _ (digits-Lacks f (n / 10))
        (ground arith, tt))

-- A printed number holds no line feed.
pub show-Lacks : (n : ℕ) → Lacks (λ c. c == newline) (show n)
unfolding show
show-Lacks n = digits-Lacks (suc n) n

-- A parent's characters are those of the path, and the slash.
module _ (p : ℕ → Bool) (no_slash : p slash ≡ false) where
  trim_slashes-Lacks : (s : Text) → Lacks p s → Lacks p (trim_slashes s)
  unfolding trim_slashes
  trim_slashes-Lacks [] h = tt
  trim_slashes-Lacks (c ∷ s) h = keep_slash-Lacks c (trim_slashes s) h.0 (trim_slashes-Lacks s h.1)
    where
      keep_slash-Lacks : (d : ℕ) (t : Text) → p d ≡ false → Lacks p t → Lacks p (keep_slash d t)
      keep_slash-Lacks d [] k l = Lacks-if p (d == slash) [] (d ∷ []) tt (k, tt)
      keep_slash-Lacks d (e ∷ t) k l = (k, l)

  place-Lacks : (c : ℕ) (r : Text × Text) → p c ≡ false → Lacks p r.0 → Lacks p (place c r).0
  place-Lacks c ([], file) h k = elim (Bool-cases (c == slash)) [
    | inl same ↦ rw same (h, tt)
    | inr other ↦ rw other tt
  ]
  place-Lacks c (d ∷ dir, file) h k = (h, k)

  split_last-Lacks : (s : Text) → Lacks p s → Lacks p (split_last s).0
  unfolding split_last
  split_last-Lacks [] h = tt
  split_last-Lacks (c ∷ s) h = place-Lacks c (split_last s) h.0 (split_last-Lacks s h.1)

  or_root-Lacks : (s : Text) → Lacks p s → Lacks p (or_root s)
  or_root-Lacks [] h = (no_slash, tt)
  or_root-Lacks (c ∷ s) h = h

  parent_of-Lacks : (s : Text) → Lacks p s → Lacks p (parent_of s)
  parent_of-Lacks [] h = tt
  parent_of-Lacks (c ∷ s) h = or_root-Lacks (trim_slashes (c ∷ s)) (trim_slashes-Lacks (c ∷ s) h)

  abbrev pub LacksAll : Option Text → Type 0
  LacksAll none = Unit
  LacksAll (some s) = Lacks p s

  parent_trimmed-Lacks : (s : Text) → Lacks p s → LacksAll (parent_trimmed s)
  parent_trimmed-Lacks [] h = tt
  parent_trimmed-Lacks (c ∷ s) h =
      parent_of-Lacks (split_last (c ∷ s)).0 (split_last-Lacks (c ∷ s) h)

  pub parent-Lacks : (s : Text) → Lacks p s → LacksAll (parent s)
  unfolding parent
  parent-Lacks s h = parent_trimmed-Lacks (trim_slashes s) (trim_slashes-Lacks s h)
