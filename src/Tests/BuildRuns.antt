-- ===== src/Tests/BuildRuns.antt =====
-- A managed build with three versions, on disks that refuse or keep what they are told to remove.
use llmtune.Prelude.{
  ◌≡◌, refl, true, not, ◌&&◌, ◌||◌, none, some, [], ◌∷◌, ok, err, Text, codes, trim, subst,
}
use Prim.Native.Nat.{max}
use llmtune.Build.Slug.{slug, IsName, slug-IsName}
use llmtune.Build.Versions.{
  BuildSpec, Version, Tree, Disk, Builder, RollbackOutcome, has_bins, find_version, is_current,
  is_visible, gc,
}
use llmtune.Build.Install.{install, rollback}
use llmtune.Build.Kept.{IsLive, IsComplete}
use llmtune.Build.Live.{install-IsLive}
use llmtune.Build.Newest.{is_recent}
use llmtune.Build.Gc.{or_left, is_installed, gc_removes}
use llmtune.Build.Back.{IsPrior, rollback-IsPrior}

abbrev server : Text
server = codes "llama-server"

abbrev vulkan : BuildSpec
vulkan = record {
  name = codes "vulkan";
  git_url = codes "https://example.org/llama.cpp";
  git_ref = codes "master";
  cmake_flags = [];
  out_bins = server ∷ [];
}

abbrev version : Text → Version
version s = record { slug = s; bins = server ∷ [] }

abbrev three : Tree
three = record {
  versions = version (codes "aaa1111") ∷ version (codes "bbb2222") ∷ version (codes "ccc3333") ∷ [];
  current = some (codes "aaa1111");
  ledger = codes "aaa1111" ∷ codes "bbb2222" ∷ codes "ccc3333" ∷ [];
}

abbrev good_disk : Disk
good_disk = record {
  make_dir = ok tt;
  make_stage = ok tt;
  link = λ s. ok tt;
  place = λ s v. ok tt;
  write_ledger = λ order. ok tt;
  left = λ s. none;
}

abbrev full_disk : Disk
full_disk = record good_disk { write_ledger = λ order. err (codes "no space left") }

abbrev fresh_builder : Builder
fresh_builder = record {
  resolve_ref = λ spec. ok (codes "DDD4444DDD4444ddd");
  produce = λ spec commit. ok (server ∷ []);
}

first_complete : IsLive vulkan.out_bins three
unfolding find_version has_bins
first_complete c e =
    subst (λ n. IsComplete vulkan.out_bins n three.versions) (named e)
      (version (codes "aaa1111"), refl, refl)
  where
    named : some (codes "aaa1111") ≡ some c → codes "aaa1111" ≡ c
    named e = cc

install-IsLive_example :
    IsLive vulkan.out_bins (install full_disk fresh_builder vulkan 2 true three).1
install-IsLive_example = install-IsLive full_disk fresh_builder vulkan 2 true three first_complete

slug-IsName_example : IsName 24 (slug (codes " DDD4444DDD4444ddd\n"))
unfolding trim
slug-IsName_example = slug-IsName (codes " DDD4444DDD4444ddd\n") refl

installed_slug :
    (install full_disk fresh_builder vulkan 2 true three).1.current ≡ some (codes "ddd4444ddd44")
unfolding install
installed_slug = refl

gc_removes_example :
    let keeps =
      is_recent (is_installed three) (max 1 1) (codes "bbb2222") three.ledger
      || is_current three.current (codes "bbb2222") in
    find_version (codes "bbb2222") (gc good_disk 1 three).1.versions
    ≡ or_left good_disk
        (codes "bbb2222")
        (not keeps && is_visible (codes "bbb2222"))
        (find_version (codes "bbb2222") three.versions)
gc_removes_example = gc_removes good_disk 1 three (codes "bbb2222")

second_removed : find_version (codes "bbb2222") (gc good_disk 1 three).1.versions ≡ none
unfolding find_version gc
second_removed = refl

abbrev back : RollbackOutcome
back = record { name = codes "vulkan"; from = some (codes "aaa1111"); to = codes "ccc3333" }

rollback-IsPrior_example :
    IsPrior three (codes "ccc3333")
    × (back.from ≡ three.current)
    × ((rollback good_disk (codes "vulkan") true three).1
        ≡ record three { current = some (codes "ccc3333") })
unfolding rollback
rollback-IsPrior_example = rollback-IsPrior good_disk (codes "vulkan") true three back refl
