-- ===== src/Prelude/Maps.antt =====
-- `BTreeMap` with text keys, as an association list in the order of the keys.
use mathlib.Core.Path.{◌≡◌, ◌∙◌, refl, sym, ap, subst}
use mathlib.Core.Logic.{inl, inr}
use mathlib.Core.Bool.{true, false, false≢true}
use mathlib.Core.List.{List, [], ◌∷◌, ◌++◌}
use mathlib.Core.Option.{Option, none, some}
use native.Mathlib.Omega.{arith}
use llmtune.Prelude.Tests.{Bool-cases, if◌then◌else◌}
use llmtune.Prelude.Lists.{All}
use llmtune.Prelude.Texts.{Text, text_eq, text_eq_iff, text_lt}

pub text_lt_trans : (a b c : Text) → text_lt a b ≡ true → text_lt b c ≡ true → text_lt a c ≡ true
unfolding text_lt
text_lt_trans a [] c h k = cc
text_lt_trans a (y ∷ b) [] h k = cc
text_lt_trans [] (y ∷ b) (z ∷ c) h k = refl
text_lt_trans (x ∷ a) (y ∷ b) (z ∷ c) h k = ground (arith, text_lt_trans a b c)

pub text_lt_irrefl : (a : Text) → text_lt a a ≡ false
unfolding text_lt
text_lt_irrefl [] = refl
text_lt_irrefl (x ∷ a) = ground (arith, text_lt_irrefl a)

pub text_lt_total : (a b : Text) → text_eq a b ≡ false → text_lt b a ≡ false → text_lt a b ≡ true
unfolding text_lt text_eq
text_lt_total [] [] h k = cc
text_lt_total [] (y ∷ b) h k = refl
text_lt_total (x ∷ a) [] h k = cc
text_lt_total (x ∷ a) (y ∷ b) h k = ground (arith, text_lt_total a b)

pub text_lt-ne : (a b : Text) → text_lt a b ≡ true → text_eq a b ≡ false
unfolding text_lt text_eq
text_lt-ne [] [] h = cc
text_lt-ne [] (y ∷ b) h = refl
text_lt-ne (x ∷ a) [] h = refl
text_lt-ne (x ∷ a) (y ∷ b) h = ground (arith, text_lt-ne a b)

pub text_lt_asym : (a b : Text) → text_lt a b ≡ true → text_lt b a ≡ false
unfolding text_lt
text_lt_asym [] [] h = cc
text_lt_asym [] (y ∷ b) h = refl
text_lt_asym (x ∷ a) [] h = cc
text_lt_asym (x ∷ a) (y ∷ b) h = ground (arith, text_lt_asym a b)

-- `BTreeMap<String, V>`: the entries in the order of their keys.
abbrev pub Map {ℓ} : Type ℓ → Type ℓ
Map V = List (Text × V)

module _ {ℓ} {V : Type ℓ} where
  unfoldable pub get : Text → Map V → Option V
  get k [] = none
  get k ((j, v) ∷ m) = if text_eq j k then some v else get k m

  unfoldable pub insert : Text → V → Map V → Map V
  insert k v [] = (k, v) ∷ []
  insert k v ((j, w) ∷ m) =
      if text_eq j k
      then (k, v) ∷ m
      else if text_lt k j
      then (k, v) ∷ (j, w) ∷ m
      else (j, w) ∷ insert k v m

  pub get-insert :
      (j k : Text) (v : V) (m : Map V)
      → get j (insert k v m) ≡ (if text_eq k j then some v else get j m)
  unfolding get insert
  get-insert j k v [] = refl
  get-insert j k v ((i, w) ∷ m) =
      ground (arith, text_eq_iff k j, text_eq_iff i k, text_eq_iff i j, get-insert j k v m)

  -- All keys come after `k`.
  abbrev pub Above : Text → Map V → Type 0
  Above k m = All (λ e. text_lt k e.0 ≡ true) m

  -- The keys stand in strictly increasing order.
  abbrev pub IsMap : Map V → Type 0
  IsMap [] = Unit
  IsMap ((k, v) ∷ m) = Above k m × IsMap m

  pub get-Above : (k : Text) (m : Map V) → Above k m → get k m ≡ none
  unfolding get
  get-Above k [] h = refl
  get-Above k ((j, v) ∷ m) h = elim (Bool-cases (text_eq j k)) [
    | inl same ↦ absurd (
        false≢true
          (sym (text_lt_irrefl k) ∙ subst (λ i. text_lt k i ≡ true) ((text_eq_iff j k).0 same) h.0))
    | inr other ↦ rw other (get-Above k m h.1)
  ]

  insert-Above :
      (j k : Text) (v : V) (m : Map V) → text_lt j k ≡ true → Above j m → Above j (insert k v m)
  unfolding insert
  insert-Above j k v [] h a = (h, tt)
  insert-Above j k v ((i, w) ∷ m) h a = ground (arith, insert-Above j k v m h a.1)

  Above-trans : (j k : Text) (m : Map V) → text_lt j k ≡ true → Above k m → Above j m
  Above-trans j k [] h a = tt
  Above-trans j k ((i, w) ∷ m) h (first, rest) =
      (text_lt_trans j k i h first, Above-trans j k m h rest)

  pub insert-IsMap : (k : Text) (v : V) (m : Map V) → IsMap m → IsMap (insert k v m)
  unfolding insert
  insert-IsMap k v [] h = (tt, tt)
  insert-IsMap k v ((j, w) ∷ m) (a, h) = elim (Bool-cases (text_eq j k)) [
    | inl same ↦ rw same (subst (λ i. Above i m) ((text_eq_iff j k).0 same) a, h)
    | inr other ↦ rw other (elim (Bool-cases (text_lt k j)) [
      | inl before ↦ rw before ((before, Above-trans k j m before a), (a, h))
      | inr behind ↦
          rw behind (insert-Above j k v m (text_lt_total j k other behind) a, insert-IsMap k v m h)
    ])
  ]

abbrev pub or_else {ℓ} : {V : Type ℓ} → Option V → Option V → Option V
or_else none b = b
or_else (some a) b = some a

-- A key after all others is put at the end.
pub insert_last {ℓ} :
    {V : Type ℓ} (k : Text) (v : V) (m : Map V)
    → All (λ e. text_lt e.0 k ≡ true) m
    → insert k v m ≡ m ++ (k, v) ∷ []
unfolding insert
insert_last k v [] h = refl
insert_last k v ((j, w) ∷ m) (before, h) =
    rw (text_lt-ne j k before, text_lt_asym j k before) (ap (λ t. (j, w) ∷ t) (insert_last k v m h))
