-- ===== src/Swap/Dropins/Last.antt =====
-- src/swap.rs: `winning_name` sorts behind every other name.
use llmtune.Prelude.{
  ◌≡◌, ◌∙◌, refl, sym, ap, subst, Bool, true, false, Option, none, some, List, [], ◌∷◌, ◌++◌, Text,
  codes, text_eq, text_eq_iff, text_lt, text_lt_trans, text_lt_irrefl, text_lt_total, text_lt_asym,
  ℕ, All, arith, Bool-cases, inl, inr, if◌then◌else◌,
}
use llmtune.Swap.Dropins.{
  strip_suffix, with_char, conf, max_text, larger, base_name, stem_or, name_above, winning_name,
}

text_lt-append : (t a b : Text) → text_lt (t ++ a) (t ++ b) ≡ text_lt a b
unfolding text_lt
text_lt-append [] a b = refl
text_lt-append (c ∷ t) a b = ground (arith, text_lt-append t a b)

-- A text comes before the text that goes on from it.
text_lt-longer : (t : Text) (c : ℕ) (s : Text) → text_lt t (t ++ c ∷ s) ≡ true
unfolding text_lt
text_lt-longer [] c s = refl
text_lt-longer (d ∷ t) c s = ground (arith, text_lt-longer t c s)

suffix_step :
    (c : ℕ) (s p t : Text) (o : Option Text)
    → ((u : Text) → o ≡ some u → s ≡ u ++ p)
    → with_char c o ≡ some t
    → c ∷ s ≡ t ++ p
suffix_step c s p t none ih h = cc
suffix_step c s p t (some u) ih h = ap (λ l. c ∷ l) (ih u refl) ∙ ap (λ o. text_in o ++ p) h
  where
    text_in : Option Text → Text
    text_in none = []
    text_in (some l) = l

whole_suffix : (s p t : Text) → text_eq s p ≡ true → some [] ≡ some t → s ≡ t ++ p
whole_suffix s p [] same h = (text_eq_iff s p).0 same
whole_suffix s p (c ∷ t) same h = cc

chosen_true : (b : Bool) (x y : Option Text) → b ≡ true → (if b then x else y) ≡ x
chosen_true b x y e = rw e

chosen_false : (b : Bool) (x y : Option Text) → b ≡ false → (if b then x else y) ≡ y
chosen_false b x y e = rw e

strip_suffix-append : (s p t : Text) → strip_suffix s p ≡ some t → s ≡ t ++ p
unfolding strip_suffix
strip_suffix-append [] p t h = elim (Bool-cases (text_eq [] p)) [
  | inl same ↦ whole_suffix [] p t same (sym (chosen_true (text_eq [] p) _ _ same) ∙ h)
  | inr other ↦ absurd_none t (sym (chosen_false (text_eq [] p) _ _ other) ∙ h)
]
  where
    absurd_none : (t : Text) → none ≡ some t → [] ≡ t ++ p
    absurd_none t e = cc
strip_suffix-append (c ∷ s) p t h = elim (Bool-cases (text_eq (c ∷ s) p)) [
  | inl same ↦ whole_suffix (c ∷ s) p t same (sym (chosen_true (text_eq (c ∷ s) p) _ _ same) ∙ h)
  | inr other ↦
      suffix_step c s p t (strip_suffix s p) (λ u. strip_suffix-append s p u)
        (sym (chosen_false (text_eq (c ∷ s) p) _ _ other) ∙ h)
]

-- No name of the list comes behind the largest.
abbrev Tops : Option Text → List Text → Type 0
Tops none fs = fs ≡ []
Tops (some m) fs = All (λ f. text_lt m f ≡ false) fs

not_behind : (m f g : Text) → text_lt m f ≡ false → text_lt m g ≡ true → text_lt f g ≡ true
not_behind m f g h k = elim (Bool-cases (text_eq f m)) [
  | inl same ↦ subst (λ e. text_lt e g ≡ true) (sym ((text_eq_iff f m).0 same)) k
  | inr other ↦ text_lt_trans f m g (text_lt_total f m other h) k
]

larger_new : (f m : Text) → text_lt m f ≡ true → larger f (some m) ≡ f
larger_new f m e = rw e

larger_old : (f m : Text) → text_lt m f ≡ false → larger f (some m) ≡ m
larger_old f m e = rw e

-- What is not behind `m` is not behind a later name.
raised :
    (m f : Text) (gs : List Text)
    → text_lt m f ≡ true
    → All (λ g. text_lt m g ≡ false) gs
    → All (λ g. text_lt f g ≡ false) gs
raised m f [] above h = tt
raised m f (g ∷ gs) above (b, h) =
    (text_lt_asym g f (not_behind m g f b above), raised m f gs above h)

Tops-larger :
    (f : Text) (fs : List Text) (o : Option Text) → Tops o fs → Tops (some (larger f o)) (f ∷ fs)
Tops-larger f fs none h = (text_lt_irrefl f, subst (All (λ g. text_lt f g ≡ false)) (sym h) tt)
Tops-larger f fs (some m) h = elim (Bool-cases (text_lt m f)) [
  | inl above ↦
      subst (λ n. Tops (some n) (f ∷ fs)) (sym (larger_new f m above))
        (text_lt_irrefl f, raised m f fs above h)
  | inr kept ↦ subst (λ n. Tops (some n) (f ∷ fs)) (sym (larger_old f m kept)) (kept, h)
]

max_text-Tops : (fs : List Text) → Tops (max_text fs) fs
unfolding max_text
max_text-Tops [] = refl
max_text-Tops (f ∷ fs) = Tops-larger f fs (max_text fs) (max_text-Tops fs)

before-All :
    (m name : Text) (fs : List Text)
    → text_lt m name ≡ true
    → All (λ f. text_lt m f ≡ false) fs
    → All (λ f. text_lt f name ≡ true) fs
before-All m name [] h a = tt
before-All m name (f ∷ fs) h (b, a) = (not_behind m f name b h, before-All m name fs h a)

dot_first : text_lt conf (codes "z-llmtune.conf") ≡ true
unfolding text_lt
dot_first = refl

stem-last :
    (m : Text) (o : Option Text)
    → strip_suffix m conf ≡ o
    → text_lt m (stem_or o m ++ codes "z-llmtune.conf") ≡ true
stem-last m none h = text_lt-longer m b'z' (codes "-llmtune.conf")
stem-last m (some stem) h =
    subst (λ t. text_lt t (stem ++ codes "z-llmtune.conf") ≡ true)
      (sym (strip_suffix-append m conf stem h))
      (text_lt-append stem conf (codes "z-llmtune.conf") ∙ dot_first)

name_above-last : (m : Text) → text_lt m (name_above (some m)) ≡ true
name_above-last m = elim (Bool-cases (text_lt m base_name)) [
  | inl below ↦ rw below below
  | inr not_below ↦ rw not_below (stem-last m _ refl)
]

below_top :
    (foreign : List Text) (o : Option Text)
    → Tops o foreign
    → All (λ f. text_lt f (name_above o) ≡ true) foreign
below_top foreign none h = subst (All (λ f. text_lt f base_name ≡ true)) (sym h) tt
below_top foreign (some m) h = before-All m (name_above (some m)) foreign (name_above-last m) h

-- The name that is chosen for the staged drop-in sorts strictly behind every foreign name.
pub winning_name-last :
    (foreign : List Text) → All (λ f. text_lt f (winning_name foreign) ≡ true) foreign
unfolding winning_name
winning_name-last foreign = below_top foreign (max_text foreign) (max_text-Tops foreign)
