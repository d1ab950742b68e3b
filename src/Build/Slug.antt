-- ===== src/Build/Slug.antt =====
-- src/build.rs: `slug`, the directory name of a commit.
use llmtune.Prelude.{
  ℕ, ◌≤◌, ◌≡◌, leb, ◌==◌, Bool, true, false, not, ◌&&◌, ◌||◌, [], ◌∷◌, Text, map, take, all, length,
  is_empty, trim, to_lowercase, lower, All, arith, Bool-cases, inl, inr, if◌then◌else◌, zero, suc,
  refl,
}
use Prim.Native.Nat.{min}

abbrev between : ℕ → ℕ → ℕ → Bool
between lo hi c = leb lo c && leb c hi

abbrev pub is_alphanumeric : ℕ → Bool
is_alphanumeric c = between b'0' b'9' c || between b'a' b'z' c || between b'A' b'Z' c

-- `is_ascii_hexdigit`
abbrev pub is_hexdigit : ℕ → Bool
is_hexdigit c = between b'0' b'9' c || between b'a' b'f' c || between b'A' b'F' c

unfoldable pub is_hex : Text → Bool
is_hex s = not (is_empty s) && all is_hexdigit s

-- The characters that a directory name may hold.
abbrev pub is_safe : ℕ → Bool
is_safe c = is_alphanumeric c || c == b'-' || c == b'_' || c == b'.'

abbrev pub squash : ℕ → ℕ
squash c = if is_safe c then c else b'-'

-- A hexadecimal text has a byte for each character.
unfoldable pub slug : Text → Text
unfolding trim is_hex to_lowercase
slug commit =
    let c = trim commit in
    if is_hex c && leb 7 (length c)
    then to_lowercase (take (min (length c) 12) c)
    else take 24 (map squash c)

-- Safe characters, one at least and `n` at most.
abbrev pub IsName : ℕ → Text → Type 0
IsName n s = (is_empty s ≡ false) × (length s ≤ n) × All (λ c. is_safe c ≡ true) s

length-take : (n : ℕ) (s : Text) → length (take n s) ≤ n
length-take zero s = omega arith
length-take (suc n) [] = omega arith
length-take (suc n) (c ∷ s) = omega (arith, length-take n s)

lower-hexdigit : (c : ℕ) → is_hexdigit c ≡ true → is_safe (lower c) ≡ true
unfolding lower
lower-hexdigit c h = ground arith

squash-safe : (c : ℕ) → is_safe (squash c) ≡ true
squash-safe c = ground arith

lowered :
    (n : ℕ) (s : Text)
    → all is_hexdigit s ≡ true
    → All (λ c. is_safe c ≡ true) (to_lowercase (take n s))
unfolding to_lowercase
lowered zero s h = tt
lowered (suc n) [] h = tt
lowered (suc n) (c ∷ s) h = (lower-hexdigit c (ground arith), lowered n s (ground arith))

squashed : (n : ℕ) (s : Text) → All (λ c. is_safe c ≡ true) (take n (map squash s))
squashed zero s = tt
squashed (suc n) [] = tt
squashed (suc n) (c ∷ s) = (squash-safe c, squashed n s)

kept_filled :
    (n : ℕ) (s : Text) → 1 ≤ n → is_empty s ≡ false → is_empty (to_lowercase (take n s)) ≡ false
unfolding to_lowercase
kept_filled zero s k h = elim (none_below k) [ ]
  where
    none_below : 1 ≤ 0 → ⊥
    none_below k = omega arith
kept_filled (suc n) [] k h = cc
kept_filled (suc n) (c ∷ s) k h = refl

squashed_filled :
    (n : ℕ) (s : Text) → is_empty s ≡ false → is_empty (take (suc n) (map squash s)) ≡ false
squashed_filled n [] h = cc
squashed_filled n (c ∷ s) h = refl

length-to_lowercase : (s : Text) → length (to_lowercase s) ≡ length s
unfolding to_lowercase
length-to_lowercase [] = refl
length-to_lowercase (c ∷ s) = omega (arith, length-to_lowercase s)

hex_name :
    (s : Text)
    → is_hex s && leb 7 (length s) ≡ true
    → IsName 24 (to_lowercase (take (min (length s) 12) s))
unfolding is_hex
hex_name s h = (
  kept_filled (min (length s) 12) s (ground arith) (ground arith),
  omega
      (arith, length-to_lowercase (take (min (length s) 12) s), length-take (min (length s) 12) s),
  lowered (min (length s) 12) s (ground arith),
)

-- The slug of a commit that is not blank is a directory name of 1 to 24 characters, all of them
-- letters and digits of ASCII, `-`, `_` and `.`, so that it never leaves the build's directory by
-- a slash.
pub slug-IsName : (commit : Text) → is_empty (trim commit) ≡ false → IsName 24 (slug commit)
unfolding slug
slug-IsName commit h = elim (Bool-cases (is_hex (trim commit) && leb 7 (length (trim commit)))) [
  | inl hex ↦ rw hex (hex_name (trim commit) hex)
  | inr other ↦
      rw other (squashed_filled 23 (trim commit) h, length-take 24 _, squashed 24 (trim commit))
]
