-- ===== src/Prelude/Outcomes.antt =====
-- `anyhow::Result`: the error is its message. `?` and the checks that end in `bail!`.
use Prim.Native.Nat.{ℕ}
use mathlib.Core.Path.{◌≡◌, refl}
use mathlib.Core.Bool.{Bool, true, false}
use mathlib.Core.List.{List, [], ◌∷◌}
use mathlib.Core.Option.{Option, none, some}
use llmtune.Prelude.Lists.{All}

pub data Outcome {ℓ} (A : Type ℓ) : Type ℓ where
  ok : A → Outcome A
  err : List ℕ → Outcome A

abbrev pub is_ok {ℓ} : {A : Type ℓ} → Outcome A → Bool
is_ok (ok a) = true
is_ok (err e) = false

-- `?`
abbrev pub and_next {ℓ κ} : {A : Type ℓ} {B : Type κ} → Outcome A → (A → Outcome B) → Outcome B
and_next (ok a) next = next a
and_next (err e) next = err e

-- An `if` that ends in `bail!` where the test is false.
abbrev pub require {ℓ} : {B : Type ℓ} → Bool → List ℕ → Outcome B → Outcome B
require true message next = next
require false message next = err message

-- `.context(message)?` on an option.
abbrev pub or_bail {ℓ} : {A : Type ℓ} → Option A → List ℕ → Outcome A
or_bail none message = err message
or_bail (some a) message = ok a

-- A loop whose body is such an `if`.
abbrev pub require_all {ℓ κ} :
    {A : Type ℓ} {B : Type κ} → (A → Bool) → (A → List ℕ) → List A → Outcome B → Outcome B
require_all p message [] next = next
require_all p message (x ∷ xs) next = require (p x) (message x) (require_all p message xs next)

pub and_next-ok {ℓ κ} :
    {A : Type ℓ} {B : Type κ} (r : Outcome A) (next : A → Outcome B) (b : B)
    → and_next r next ≡ ok b
    → (a : A) × (r ≡ ok a) × (next a ≡ ok b)
and_next-ok (ok a) next b h = (a, refl, h)
and_next-ok (err e) next b h = cc

pub require-ok {ℓ} :
    {B : Type ℓ} (p : Bool) (message : List ℕ) (next : Outcome B) (b : B)
    → require p message next ≡ ok b
    → (p ≡ true) × (next ≡ ok b)
require-ok true message next b h = (refl, h)
require-ok false message next b h = cc

pub or_bail-ok {ℓ} :
    {A : Type ℓ} (o : Option A) (message : List ℕ) (a : A) → or_bail o message ≡ ok a → o ≡ some a
or_bail-ok none message a h = cc
or_bail-ok (some x) message a h = cc

pub require_all-ok {ℓ κ} :
    {A : Type ℓ} {B : Type κ} (p : A → Bool) (message : A → List ℕ) (xs : List A) (next : Outcome B)
    (b : B)
    → require_all p message xs next ≡ ok b
    → All (λ x. p x ≡ true) xs × (next ≡ ok b)
require_all-ok p message [] next b h = (tt, h)
require_all-ok p message (x ∷ xs) next b h =
    let (first, more) = require-ok (p x) (message x) _ b h in
    let (rest, last) = require_all-ok p message xs next b more in ((first, rest), last)

pub ok-injective {ℓ} : {A : Type ℓ} (a b : A) → ok a ≡ ok b → a ≡ b
ok-injective a b h = cc
