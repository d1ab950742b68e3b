-- ===== src/Swap/Dropins/Wins.antt =====
-- src/swap.rs: what `collect_dropins` leaves out of account is nothing.
use llmtune.Prelude.{
  ◌≡◌, ◌∙◌, refl, sym, ap, subst, ◌⊎◌, inl, inr, Bool, true, false, List, [], ◌∷◌, ◌++◌, map, Text,
  codes, text_lt, contains, All, Any, here, there,
}
use llmtune.Swap.Dropins.{
  Dropin, Found, has_conf_extension, scan_files, add_file, add_dir, collect_dropins_in,
  collect_dropins, scan_dirs, marker, winning_name,
}
use llmtune.Swap.Dropins.Last.{winning_name-last}

module _ {ℓ κ} {A : Type ℓ} (P : A → Type κ) where
  Any-left : (xs ys : List A) → Any P xs → Any P (xs ++ ys)
  Any-left [] ys h = elim h [ ]
  Any-left (x ∷ xs) ys (here h) = here h
  Any-left (x ∷ xs) ys (there h) = there (Any-left xs ys h)

  Any-right : (xs ys : List A) → Any P ys → Any P (xs ++ ys)
  Any-right [] ys h = h
  Any-right (x ∷ xs) ys h = there (Any-right xs ys h)

  All-append : (xs ys : List A) → All P xs → All P ys → All P (xs ++ ys)
  All-append [] ys h g = g
  All-append (x ∷ xs) ys (p, h) g = (p, All-append xs ys h g)

-- The file is among those to remove, or its name among those to sort behind.
Listed : Found → Text → Text → Type 0
Listed found dir name =
    Any (λ p. (p.dir ≡ dir) × (p.name ≡ name)) found.ours ⊎ Any (λ n. n ≡ name) found.foreign

add_file-later :
    (is_conf own : Bool) (p : Dropin) (rest : Found) (dir name : Text)
    → Listed rest dir name
    → Listed (add_file is_conf own p rest) dir name
unfolding Listed
add_file-later false own p rest dir name h = h
add_file-later true true p rest dir name (inl h) = inl (there h)
add_file-later true true p rest dir name (inr h) = inr h
add_file-later true false p rest dir name (inl h) = inl h
add_file-later true false p rest dir name (inr h) = inr (there h)

add_file-now :
    (is_conf own : Bool) (p : Dropin) (rest : Found)
    → is_conf ≡ true
    → Listed (add_file is_conf own p rest) p.dir p.name
unfolding Listed
add_file-now false own p rest h = cc
add_file-now true true p rest h = inl (here (refl, refl))
add_file-now true false p rest h = inr (here refl)

-- What is listed of a directory is listed of all.
add_dir-Listed :
    (writable : Bool) (found rest : Found) (dir name : Text)
    → Listed found dir name
    → Listed (add_dir writable found rest) dir name
unfolding Listed
add_dir-Listed true found rest dir name (inl h) = inl (Any-left _ found.ours rest.ours h)
add_dir-Listed true found rest dir name (inr h) = inr (Any-left _ found.foreign rest.foreign h)
add_dir-Listed false found rest dir name (inl h) =
    inr (Any-left _ (map (λ p. p.name) found.ours) _ (named found.ours h))
  where
    named :
        (ps : List Dropin)
        → Any (λ p. (p.dir ≡ dir) × (p.name ≡ name)) ps
        → Any (λ n. n ≡ name) (map (λ p. p.name) ps)
    named [] h = elim h [ ]
    named (p ∷ ps) (here (d, n)) = here n
    named (p ∷ ps) (there h) = there (named ps h)
add_dir-Listed false found rest dir name (inr h) =
    inr (Any-right _ (map (λ p. p.name) found.ours) _ (Any-left _ found.foreign rest.foreign h))

add_dir-rest :
    (writable : Bool) (found rest : Found) (dir name : Text)
    → Listed rest dir name
    → Listed (add_dir writable found rest) dir name
unfolding Listed
add_dir-rest true found rest dir name (inl h) = inl (Any-right _ found.ours rest.ours h)
add_dir-rest true found rest dir name (inr h) = inr (Any-right _ found.foreign rest.foreign h)
add_dir-rest false found rest dir name (inl h) = inl h
add_dir-rest false found rest dir name (inr h) =
    inr (Any-right _ (map (λ p. p.name) found.ours) _ (Any-right _ found.foreign rest.foreign h))

module _ (is_ours : Text → Bool) where
  scan_files-Listed :
      (dir name content : Text) (files : List (Text × Text))
      → has_conf_extension name ≡ true
      → Any (λ f. f ≡ (name, content)) files
      → Listed (scan_files is_ours dir files) dir name
  unfolding scan_files
  scan_files-Listed dir name content [] h m = elim m [ ]
  scan_files-Listed dir name content ((n, c) ∷ files) h (here e) =
      let same : n ≡ name = ap (λ f. f.0) e in
      subst (λ k. Listed (scan_files is_ours dir ((n, c) ∷ files)) dir k) same
        (add_file-now (has_conf_extension n) (is_ours c) _ (scan_files is_ours dir files)
          (ap has_conf_extension same ∙ h))
  scan_files-Listed dir name content ((n, c) ∷ files) h (there m) =
      add_file-later (has_conf_extension n) (is_ours c) _ _ dir name
        (scan_files-Listed dir name content files h m)

  module _ (read_dir : Text → List (Text × Text)) where
    collect-Listed :
        (dir name content : Text) (dirs : List (Text × Bool))
        → has_conf_extension name ≡ true
        → Any (λ d. d.0 ≡ dir) dirs
        → Any (λ f. f ≡ (name, content)) (read_dir dir)
        → Listed (collect_dropins_in is_ours read_dir dirs) dir name
    unfolding collect_dropins_in
    collect-Listed dir name content [] h m f = elim m [ ]
    collect-Listed dir name content ((d, writable) ∷ dirs) h (here e) f =
        subst (λ k. Listed (collect_dropins_in is_ours read_dir ((d, writable) ∷ dirs)) k name) e
          (add_dir-Listed writable (scan_files is_ours d (read_dir d)) _ d name (
            scan_files-Listed d name content (read_dir d) h
              (subst (λ k. Any (λ f. f ≡ (name, content)) (read_dir k)) (sym e) f)))
    collect-Listed dir name content ((d, writable) ∷ dirs) h (there m) f =
        add_dir-rest writable _ _ dir name (collect-Listed dir name content dirs h m f)

    -- All that is to be removed has the mark.
    Marked : List Dropin → Type 0
    Marked ps = All (λ p. is_ours p.content ≡ true) ps

    add_file-Marked :
        (is_conf own : Bool) (p : Dropin) (rest : Found)
        → is_ours p.content ≡ own
        → Marked rest.ours
        → Marked (add_file is_conf own p rest).ours
    unfolding Marked
    add_file-Marked false own p rest e h = h
    add_file-Marked true true p rest e h = (e, h)
    add_file-Marked true false p rest e h = h

    scan_files-Marked :
        (dir : Text) (files : List (Text × Text)) → Marked (scan_files is_ours dir files).ours
    unfolding scan_files Marked
    scan_files-Marked dir [] = tt
    scan_files-Marked dir ((n, c) ∷ files) =
        add_file-Marked (has_conf_extension n) (is_ours c) _ _ refl (scan_files-Marked dir files)

    add_dir-Marked :
        (writable : Bool) (found rest : Found)
        → Marked found.ours
        → Marked rest.ours
        → Marked (add_dir writable found rest).ours
    unfolding Marked
    add_dir-Marked true found rest h g = All-append _ found.ours rest.ours h g
    add_dir-Marked false found rest h g = g

    collect-Marked :
        (dirs : List (Text × Bool)) → Marked (collect_dropins_in is_ours read_dir dirs).ours
    unfolding collect_dropins_in Marked
    collect-Marked [] = tt
    collect-Marked ((d, writable) ∷ dirs) =
        add_dir-Marked writable (scan_files is_ours d (read_dir d)) _
          (scan_files-Marked d (read_dir d)) (collect-Marked dirs)

Any-below :
    (name bound : Text) (fs : List Text)
    → All (λ f. text_lt f bound ≡ true) fs
    → Any (λ f. f ≡ name) fs
    → text_lt name bound ≡ true
Any-below name bound [] a m = elim m [ ]
Any-below name bound (f ∷ fs) (b, a) (here e) = subst (λ n. text_lt n bound ≡ true) e b
Any-below name bound (f ∷ fs) (b, a) (there m) = Any-below name bound fs a m

outsorted :
    (found : Found) (dir name : Text)
    → Listed found dir name
    → Any (λ p. (p.dir ≡ dir) × (p.name ≡ name)) found.ours
      ⊎ (text_lt name (winning_name found.foreign) ≡ true)
unfolding Listed
outsorted found dir name (inl h) = inl h
outsorted found dir name (inr h) =
    inr (
      Any-below name (winning_name found.foreign) found.foreign (winning_name-last found.foreign) h)

-- The roots below which systemd reads drop-ins: the administrator's, the runtime one and both of the
-- vendor.
abbrev pub systemd_roots : List Text
systemd_roots =
    codes "/etc/systemd/system"
    ∷ codes "/run/systemd/system"
    ∷ codes "/usr/lib/systemd/system"
    ∷ codes "/lib/systemd/system"
    ∷ []

-- The directory of the unit's drop-ins below one of them.
abbrev pub IsUnitDir : Text → Text → Type 0
IsUnitDir unit dir = Any (λ root. root ++ (codes "/" ++ (unit ++ codes ".d")) ≡ dir) systemd_roots

IsUnitDir-scanned :
    (etc_writable : Bool) (unit dir : Text)
    → IsUnitDir unit dir
    → Any (λ d. d.0 ≡ dir) (scan_dirs etc_writable unit)
unfolding scan_dirs
IsUnitDir-scanned w unit dir (here e) = here e
IsUnitDir-scanned w unit dir (there (here e)) = there (here e)
IsUnitDir-scanned w unit dir (there (there (here e))) = there (there (here e))
IsUnitDir-scanned w unit dir (there (there (there (here e)))) = there (there (there (here e)))
IsUnitDir-scanned w unit dir (there (there (there (there h)))) = elim h [ ]

-- Every file with the extension `conf` in the unit's drop-in directory below `/etc`, `/run`,
-- `/usr/lib` or `/lib` (each `systemd/system`) is among those that are removed when a new drop-in
-- is staged, or its name sorts strictly before the name that is chosen for the new one.
pub collect_dropins_win :
    (etc_writable : Bool) (read_dir : Text → List (Text × Text)) (unit dir name content : Text)
    → IsUnitDir unit dir
    → Any (λ f. f ≡ (name, content)) (read_dir dir)
    → has_conf_extension name ≡ true
    → let found = collect_dropins etc_writable read_dir unit in
      Any (λ p. (p.dir ≡ dir) × (p.name ≡ name)) found.ours
      ⊎ (text_lt name (winning_name found.foreign) ≡ true)
unfolding collect_dropins
collect_dropins_win etc_writable read_dir unit dir name content d f h =
    outsorted (collect_dropins etc_writable read_dir unit) dir name (
      collect-Listed (λ t. contains t marker) read_dir dir name content
        (scan_dirs etc_writable unit) h (IsUnitDir-scanned etc_writable unit dir d) f)

-- Only drop-ins that carry the marker of a model choice are removed when a new one is staged.
pub collect_dropins_own :
    (etc_writable : Bool) (read_dir : Text → List (Text × Text)) (unit : Text)
    → All (λ p. contains p.content marker ≡ true) (collect_dropins etc_writable read_dir unit).ours
unfolding collect_dropins Marked
collect_dropins_own etc_writable read_dir unit =
    collect-Marked (λ t. contains t marker) read_dir (scan_dirs etc_writable unit)
