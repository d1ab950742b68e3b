-- ===== src/Config/Masks.antt =====
-- src/config.rs: the base of a subnet is the address with its host bits cleared.
use llmtune.Prelude.{
  ℕ, zero, suc, ◌+◌, ◌-◌, ◌*◌, ◌/◌, ◌%◌, ◌^◌, ◌≤◌, ◌<◌, ◌≡◌, ◌∙◌, refl, sym, ap, subst, ◌==◌, Bool,
  true, ◌&&◌, arith, Bool-cases, inl, inr, ==_iff,
}
use llmtune.Config.Address.{bit_and, netmask, subnet_base}

-- `k` ones above `j` zeros.
abbrev hollow : ℕ → ℕ → ℕ
hollow zero zero = 0
hollow zero (suc k) = 1 + 2 * hollow zero k
hollow (suc j) k = 2 * hollow j k

-- An address is a number of subnets and a host within the next one.
abbrev pub IsSplit : ℕ → ℕ → ℕ → Type 0
IsSplit j a base = (q : ℕ) × (r : ℕ) × (a ≡ base + r) × (r < 2 ^ j) × (base ≡ q * 2 ^ j)

half : (k a : ℕ) → a < 2 ^ suc k → a / 2 < 2 ^ k
half k a h = omega (arith, h)

and_odd : (w a m : ℕ) → bit_and (suc w) a (1 + 2 * m) ≡ a % 2 + 2 * bit_and w (a / 2) m
unfolding bit_and
and_odd w a m =
    let low : (1 + 2 * m) % 2 ≡ 1 = omega arith in
    let high : (1 + 2 * m) / 2 ≡ m = omega arith in rw (low, high) (omega arith)

and_even : (w a m : ℕ) → bit_and (suc w) a (2 * m) ≡ 2 * bit_and w (a / 2) m
unfolding bit_and
and_even w a m =
    let low : 2 * m % 2 ≡ 0 = omega arith in
    let high : 2 * m / 2 ≡ m = omega arith in rw (low, high) (omega arith)

bit_and-ones : (k a : ℕ) → a < 2 ^ k → bit_and k a (hollow 0 k) ≡ a
bit_and-ones zero a h = unfold bit_and in omega (arith, h)
bit_and-ones (suc k) a h =
    omega (arith, and_odd k a (hollow 0 k), bit_and-ones k (a / 2) (half k a h))

power : (j : ℕ) → 2 ^ suc j ≡ 2 * 2 ^ j
power j = omega arith

double : (q v : ℕ) → q * (2 * v) ≡ 2 * (q * v)
double q v = omega arith

-- The bits above the `j` lowest ones are the address without its host.
bit_and-IsSplit : (j k w a : ℕ) → j + k ≡ w → a < 2 ^ w → IsSplit j a (bit_and w a (hollow j k))
bit_and-IsSplit zero k w a e h =
    subst (λ v. IsSplit 0 a (bit_and v a (hollow 0 k))) (zero_add e) (all_bits (bounded e h))
  where
    zero_add : 0 + k ≡ w → k ≡ w
    zero_add e = omega arith

    bounded : 0 + k ≡ w → a < 2 ^ w → a < 2 ^ k
    bounded e h = subst (λ v. a < 2 ^ v) (sym (zero_add e)) h

    all_bits : a < 2 ^ k → IsSplit 0 a (bit_and k a (hollow 0 k))
    all_bits h =
        let same = bit_and-ones k a h in
        (a, 0, omega (arith, same), omega arith, omega (arith, same))
bit_and-IsSplit (suc j) k zero a e h = absurd (omega (arith, e))
bit_and-IsSplit (suc j) k (suc w) a e h =
    let (q, r, whole, below, base) =
      bit_and-IsSplit j k w (a / 2) (omega (arith, e)) (half w a h) in
    let even : bit_and (suc w) a (hollow (suc j) k) ≡ 2 * bit_and w (a / 2) (hollow j k) =
      and_even w a (hollow j k) in
    let twice : q * 2 ^ suc j ≡ 2 * (q * 2 ^ j) = ap (λ v. q * v) (power j) ∙ double q (2 ^ j) in
    (
      q,
      2 * r + a % 2,
      omega (arith, whole, even),
      omega (arith, below),
      omega (arith, even, base, twice),
    )

abbrev same_mask : ℕ → Bool
same_mask p = netmask p == hollow (32 - p) p

abbrev all_to : (ℕ → Bool) → ℕ → Bool
all_to t zero = t 0
all_to t (suc n) = t (suc n) && all_to t n

all_to-holds : (t : ℕ → Bool) (n p : ℕ) → all_to t n ≡ true → p ≤ n → t p ≡ true
all_to-holds t zero p h k = subst (λ i. t i ≡ true) (zero_only p k) h
  where
    zero_only : (p : ℕ) → p ≤ 0 → 0 ≡ p
    zero_only p k = omega (arith, k)
all_to-holds t (suc n) p h k = elim (Bool-cases (p == suc n)) [
  | inl top ↦ subst (λ i. t i ≡ true) (sym ((==_iff p (suc n)).0 top)) (ground arith)
  | inr other ↦ all_to-holds t n p (ground arith) (ground arith)
]

netmask-hollow : (p : ℕ) → p ≤ 32 → netmask p ≡ hollow (32 - p) p
netmask-hollow p h = (==_iff (netmask p) (hollow (32 - p) p)).0 (all_to-holds same_mask 32 p refl h)

-- For an address of 32 bits and a prefix of at most 32: the base of the subnet is a multiple of the
-- size of the subnet, and the address is the base and a host below that size.
pub subnet_base-IsSplit : (ip p : ℕ) → ip < 2 ^ 32 → p ≤ 32 → IsSplit (32 - p) ip (subnet_base ip p)
unfolding subnet_base
subnet_base-IsSplit ip p h k =
    rw (netmask-hollow p k) (bit_and-IsSplit (32 - p) p 32 ip (width p k) h)
  where
    width : (p : ℕ) → p ≤ 32 → (32 - p) + p ≡ 32
    width p k = omega (arith, k)
