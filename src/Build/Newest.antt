-- ===== src/Build/Newest.antt =====
-- src/build.rs: which ledger entries are the newest, said without turning the ledger round.
use llmtune.Prelude.{
  ℕ, zero, suc, ◌+◌, ltb, ◌≡◌, ◌∙◌, refl, ap, Bool, false, ◌&&◌, ◌||◌, List, [], ◌∷◌, ◌++◌, Text,
  text_eq, filter, take, length, length-append, member, arith, Bool-cases, inl, inr, if◌then◌else◌,
}
use mathlib.Core.Path.{fun_ext}
use mathlib.Core.List.{reverse, reverse-cons}

-- How many of the entries are installed.
abbrev pub count : (Text → Bool) → List Text → ℕ
count installed [] = 0
count installed (x ∷ xs) = (if installed x then 1 else 0) + count installed xs

-- `s` stands in the ledger, oldest first, as an installed entry that fewer than `k` installed ones
-- stand behind.
abbrev pub is_recent : (Text → Bool) → ℕ → Text → List Text → Bool
is_recent installed k s [] = false
is_recent installed k s (x ∷ xs) =
    is_recent installed k s xs || text_eq x s && (installed x && ltb (count installed xs) k)

-- Only what is installed counts.
pub is_recent-same :
    (p q : Text → Bool) (k : ℕ) (s : Text) (xs : List Text)
    → ((x : Text) → p x ≡ q x)
    → is_recent p k s xs ≡ is_recent q k s xs
is_recent-same p q k s xs same = ap (λ r. is_recent r k s xs) (fun_ext same)

filter-append :
    (p : Text → Bool) (xs ys : List Text) → filter p (xs ++ ys) ≡ filter p xs ++ filter p ys
filter-append p [] ys = refl
filter-append p (x ∷ xs) ys = elim (Bool-cases (p x)) [
  | inl there_is ↦ rw there_is (ap (λ l. x ∷ l) (filter-append p xs ys))
  | inr gone ↦ rw gone (filter-append p xs ys)
]

filter-last :
    (p : Text → Bool) (x : Text) (xs : List Text)
    → filter p (reverse (x ∷ xs)) ≡ filter p (reverse xs) ++ (if p x then x ∷ [] else [])
filter-last p x xs = ap (filter p) (reverse-cons x xs) ∙ filter-append p (reverse xs) (x ∷ [])

length-filter-reverse :
    (p : Text → Bool) (xs : List Text) → length (filter p (reverse xs)) ≡ count p xs
length-filter-reverse p [] = refl
length-filter-reverse p (x ∷ xs) =
    ap length (filter-last p x xs)
    ∙ length-append (filter p (reverse xs)) (if p x then x ∷ [] else [])
    ∙ elim (Bool-cases (p x)) [
      | inl there_is ↦ rw there_is (omega (arith, length-filter-reverse p xs))
      | inr gone ↦ rw gone (omega (arith, length-filter-reverse p xs))
    ]

none_taken : (s : Text) (k : ℕ) → member s (take k []) ≡ false
none_taken s zero = unfold member in refl
none_taken s (suc k) = unfold member in refl

member-take_last :
    (s x : Text) (k : ℕ) (xs : List Text)
    → member s (take k (xs ++ x ∷ [])) ≡ member s (take k xs) || text_eq x s && ltb (length xs) k
unfolding member
member-take_last s x zero [] = ground arith
member-take_last s x zero (y ∷ xs) = ground arith
member-take_last s x (suc k) [] = ground (arith, none_taken s k)
member-take_last s x (suc k) (y ∷ xs) = ground (arith, member-take_last s x k xs)

append-none : (xs : List Text) → xs ++ [] ≡ xs
append-none [] = refl
append-none (x ∷ xs) = ap (λ l. x ∷ l) (append-none xs)

-- The first `k` installed entries from the new end are those that fewer than `k` stand behind.
pub member-newest :
    (p : Text → Bool) (k : ℕ) (s : Text) (xs : List Text)
    → member s (take k (filter p (reverse xs))) ≡ is_recent p k s xs
member-newest p k s [] = none_taken s k
member-newest p k s (x ∷ xs) =
    ap (λ l. member s (take k l)) (filter-last p x xs) ∙ elim (Bool-cases (p x)) [
      | inl there_is ↦ rw there_is (
          member-take_last s x k (filter p (reverse xs))
          ∙ ap (λ n. member s (take k (filter p (reverse xs))) || text_eq x s && ltb n k)
              (length-filter-reverse p xs)
          ∙ ap (λ b. b || text_eq x s && ltb (count p xs) k) (member-newest p k s xs))
      | inr gone ↦ rw gone (
          ap (λ l. member s (take k l)) (append-none (filter p (reverse xs)))
          ∙ member-newest p k s xs
          ∙ ground arith)
    ]
