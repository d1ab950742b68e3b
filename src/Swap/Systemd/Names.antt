-- ===== src/Swap/Systemd/Names.antt =====
-- src/swap.rs: where a drop-in is staged, no other file stands.
use llmtune.Prelude.{
  ◌≡◌, ◌∙◌, refl, sym, ap, inl, inr, Bool, true, false, not, Option, none, some, List, [], ◌∷◌,
  ◌++◌, append_assoc, Text, codes, text_eq, text_eq_iff, text_eq_refl, text_lt, text_lt_irrefl,
  is_empty, length, length-append, get, contains, All, Any, here, there, arith, ◌⊎◌, Option-cases,
  Bool-cases, if◌then◌else◌,
}
use mathlib.Core.Bool.{false≢true}
use llmtune.Swap.Dropins.{
  Dropin, Found, add_file, add_dir, scan_files, collect_dropins_in, marker, conf, strip_suffix,
  with_char, is_stem, has_conf_extension, base_name, stem_or, name_above, max_text, winning_name,
  collect_dropins, scan_dirs,
}
use llmtune.Swap.Dropins.Wins.{IsUnitDir, collect_dropins_win}
use llmtune.Swap.Systemd.{Root, IsRoot, file, found_in, dropin_dir, target}

text_eq-longer : (c : _) (t p : Text) → text_eq (c ∷ t ++ p) p ≡ false
text_eq-longer c t p = elim (Bool-cases (text_eq (c ∷ t ++ p) p)) [
  | inl same ↦
      absurd (omega (arith, ap length ((text_eq_iff (c ∷ t ++ p) p).0 same), length-append t p))
  | inr other ↦ other
]

strip_suffix_lem : (t p : Text) → strip_suffix (t ++ p) p ≡ some t
unfolding strip_suffix
strip_suffix_lem [] [] = unfold text_eq in refl
strip_suffix_lem [] (d ∷ p) = rw (text_eq_refl (d ∷ p)) refl
strip_suffix_lem (c ∷ t) p = rw (text_eq-longer c t p) (ap (with_char c) (strip_suffix_lem t p))

has_conf-append : (t : Text) → has_conf_extension (t ++ conf) ≡ not (is_empty t)
unfolding has_conf_extension
has_conf-append t = ap is_stem (strip_suffix_lem t conf)

z_conf : (s : Text) → has_conf_extension (s ++ codes "z-llmtune.conf") ≡ true
z_conf s =
    ap has_conf_extension (sym (append_assoc s (codes "z-llmtune") conf))
    ∙ has_conf-append (s ++ codes "z-llmtune")
    ∙ some_first s
  where
    some_first : (s : Text) → not (is_empty (s ++ codes "z-llmtune")) ≡ true
    some_first [] = refl
    some_first (c ∷ s) = refl

name_above-has_conf : (o : Option Text) → has_conf_extension (name_above o) ≡ true
name_above-has_conf none = has_conf-append (codes "zzzzzz-llmtune")
name_above-has_conf (some m) = elim (Bool-cases (text_lt m base_name)) [
  | inl below ↦ rw below (has_conf-append (codes "zzzzzz-llmtune"))
  | inr above ↦ rw above (z_conf (stem_or (strip_suffix m conf) m))
]

winning_name-has_conf : (foreign : List Text) → has_conf_extension (winning_name foreign) ≡ true
unfolding winning_name
winning_name-has_conf foreign = name_above-has_conf (max_text foreign)

get-Any : (k c : Text) (m : List (Text × Text)) → get k m ≡ some c → Any (λ f. f ≡ (k, c)) m
unfolding get
get-Any k c [] h = cc
get-Any k c ((j, v) ∷ m) h = elim (Bool-cases (text_eq j k)) [
  | inl same ↦ here (entry ((text_eq_iff j k).0 same) (value (sym (hit same) ∙ h)))
  | inr other ↦ there (get-Any k c m (sym (miss other) ∙ h))
]
  where
    hit : text_eq j k ≡ true → (if text_eq j k then some v else get k m) ≡ some v
    hit e = rw e

    miss : text_eq j k ≡ false → (if text_eq j k then some v else get k m) ≡ get k m
    miss e = rw e

    value : some v ≡ some c → v ≡ c
    value e = cc

    entry : j ≡ k → v ≡ c → ◌≡◌ {A = Text × Text} (j, v) (k, c)
    entry e f = cc

dropin_dir-IsUnitDir :
    (etc_writable : Bool) (unit : Text) → IsUnitDir unit (dropin_dir etc_writable unit)
dropin_dir-IsUnitDir true unit = here refl
dropin_dir-IsUnitDir false unit = there (here refl)

-- Where a drop-in is to be written there is no file, or an own drop-in that is removed before.
pub target-cases :
    {W : Type 0} (root : Root W) (unit : Text) (w : W)
    → (file root w (target root unit w).0 (target root unit w).1 ≡ none)
      ⊎ Any
          (λ p. (p.dir ≡ (target root unit w).0) × (p.name ≡ (target root unit w).1))
          (found_in root unit w).ours
target-cases root unit w =
    elim (Option-cases (file root w (target root unit w).0 (target root unit w).1)) [
      | inl nothing ↦ inl nothing
      | inr (c, there_is) ↦ inr (
          not_last (target root unit w).1 (
            collect_dropins_win (root.etc_writable w) (root.read_dir w) unit (target root unit w).0
              (target root unit w).1 c (dropin_dir-IsUnitDir (root.etc_writable w) unit)
              (get-Any (target root unit w).1 c (root.read_dir w (target root unit w).0) there_is)
              (winning_name-has_conf (found_in root unit w).foreign)))
    ]
  where
    not_last : {A : Type 0} (name : Text) → A ⊎ (text_lt name name ≡ true) → A
    not_last name (inl a) = a
    not_last name (inr before) = absurd (false≢true (sym (text_lt_irrefl name) ∙ before))

module _ {W : Type 0} (root : Root W) (laws : IsRoot root) (w : W) where
  -- The scan gives each own drop-in with the content of its file.
  AreHeld : List Dropin → Type 0
  AreHeld ps = All (λ p. file root w p.dir p.name ≡ some p.content) ps

  All-append : (xs ys : List Dropin) → AreHeld xs → AreHeld ys → AreHeld (xs ++ ys)
  unfolding AreHeld
  All-append [] ys h k = k
  All-append (x ∷ xs) ys (p, h) k = (p, All-append xs ys h k)

  add_file-AreHeld :
      (is_conf own : Bool) (p : Dropin) (rest : Found)
      → file root w p.dir p.name ≡ some p.content
      → AreHeld rest.ours
      → AreHeld (add_file is_conf own p rest).ours
  unfolding AreHeld
  add_file-AreHeld false own p rest e h = h
  add_file-AreHeld true true p rest e h = (e, h)
  add_file-AreHeld true false p rest e h = h

  scan_files-AreHeld :
      (is_ours : Text → Bool) (dir : Text) (files : List (Text × Text))
      → All (λ f. file root w dir f.0 ≡ some f.1) files
      → AreHeld (scan_files is_ours dir files).ours
  unfolding scan_files AreHeld
  scan_files-AreHeld is_ours dir [] h = tt
  scan_files-AreHeld is_ours dir ((n, c) ∷ files) (e, h) =
      add_file-AreHeld (has_conf_extension n) (is_ours c) _ _ e
        (scan_files-AreHeld is_ours dir files h)

  add_dir-AreHeld :
      (writable : Bool) (found rest : Found)
      → AreHeld found.ours
      → AreHeld rest.ours
      → AreHeld (add_dir writable found rest).ours
  add_dir-AreHeld true found rest h k = All-append found.ours rest.ours h k
  add_dir-AreHeld false found rest h k = k

  collect-AreHeld :
      (is_ours : Text → Bool) (dirs : List (Text × Bool))
      → AreHeld (collect_dropins_in is_ours (root.read_dir w) dirs).ours
  unfolding collect_dropins_in AreHeld
  collect-AreHeld is_ours [] = tt
  collect-AreHeld is_ours ((d, writable) ∷ dirs) =
      add_dir-AreHeld writable (scan_files is_ours d (root.read_dir w d)) _
        (scan_files-AreHeld is_ours d (root.read_dir w d) (laws.distinct_names w d))
        (collect-AreHeld is_ours dirs)

  pub found_in-All :
      (unit : Text)
      → All (λ p. file root w p.dir p.name ≡ some p.content) (found_in root unit w).ours
  unfolding collect_dropins AreHeld
  found_in-All unit =
      collect-AreHeld (λ t. contains t marker) (scan_dirs (root.etc_writable w) unit)
