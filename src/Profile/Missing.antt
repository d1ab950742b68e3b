-- ===== src/Profile/Missing.antt =====
-- src/profile.rs: a profile whose build is not installed launches a bare name.
use llmtune.Prelude.{
  ℕ, ◌==◌, ◌≡◌, refl, sym, subst, Bool, false, Option, none, some, [], ◌∷◌, Text, codes, contains,
  Lacks, slash, file_name, real_name, ◌≢◌, split_last, place, trim_slashes, text_eq, inl, inr,
  Bool-cases, arith, lacks_sound,
}
use llmtune.Build.{Fs, current_bin}
use llmtune.Profile.{Profile, launch, launch_build, launch_from, bin_file}

abbrev is_slash : ℕ → Bool
is_slash c = c == slash

place-file : (c : ℕ) (r : Text × Text) → Lacks is_slash r.1 → Lacks is_slash (place c r).1
place-file c ([], file) h = elim (Bool-cases (c == slash)) [
  | inl same ↦ rw same h
  | inr other ↦ rw other (other, h)
]
place-file c (d ∷ dir, file) h = h

-- What stands behind the last slash holds none.
split_last-file : (s : Text) → Lacks is_slash (split_last s).1
unfolding split_last
split_last-file [] = tt
split_last-file (c ∷ s) = place-file c (split_last s) (split_last-file s)

some-eq : {s t : Text} → some s ≡ some t → s ≡ t
some-eq e = cc

not_contains : (s : Text) → Lacks is_slash s → contains s (codes "/") ≡ false
unfolding contains
not_contains [] h = refl
not_contains (c ∷ s) h = ground (arith, not_contains s h.1)

real_name-Lacks : (s : Text) → Lacks is_slash s → Lacks is_slash (bin_file (real_name s))
real_name-Lacks [] h = lacks_sound is_slash (codes "llama-server") refl
real_name-Lacks (c ∷ s) h = elim (Bool-cases (text_eq (c ∷ s) (codes ".."))) [
  | inl dots ↦ rw dots (lacks_sound is_slash (codes "llama-server") refl)
  | inr other ↦ rw other h
]

bin_file-Lacks : (bin : Text) → Lacks is_slash (bin_file (file_name bin))
unfolding file_name
bin_file-Lacks bin = real_name-Lacks _ (split_last-file (trim_slashes bin))

launch_build-bare :
    (p : Profile) (dir : Option Text) (binfile : Text) (path : Option Text)
    → path ≡ none
    → Lacks is_slash binfile
    → contains (launch_build p dir binfile path).0 (codes "/") ≡ false
launch_build-bare p dir binfile none e h = not_contains binfile h
launch_build-bare p dir binfile (some path) e h = cc

launch_from-bare :
    (fs : Fs) (state_dir name : Text) (p : Profile) (build : Option Text)
    → build ≡ some name
    → name ≢ []
    → current_bin fs state_dir name (bin_file (file_name p.bin)) ≡ none
    → contains (launch_from fs state_dir p build).0 (codes "/") ≡ false
launch_from-bare fs state_dir name p none e nonempty missing = cc
launch_from-bare fs state_dir name p (some []) e nonempty missing =
    absurd (nonempty (sym (some-eq e)))
launch_from-bare fs state_dir name p (some (c ∷ b)) e nonempty missing =
    launch_build-bare p _ (bin_file (file_name p.bin)) _
      (subst (λ n. current_bin fs state_dir n (bin_file (file_name p.bin)) ≡ none) (sym (some-eq e))
        missing)
      (bin_file-Lacks p.bin)

-- Where the profile names a build whose current version has no such file, the launch is a name
-- with no slash, which is what `swap` tests.
pub launch_missing :
    (fs : Fs) (state_dir name : Text) (p : Profile)
    → p.build ≡ some name
    → name ≢ []
    → current_bin fs state_dir name (bin_file (file_name p.bin)) ≡ none
    → contains (launch fs state_dir p).0 (codes "/") ≡ false
unfolding launch
launch_missing fs state_dir name p = launch_from-bare fs state_dir name p p.build
