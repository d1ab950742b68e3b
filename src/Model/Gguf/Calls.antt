-- ===== src/Model/Gguf/Calls.antt =====
-- src/model.rs: how often `rd_val` is called on a file, whatever counts the file holds.
use llmtune.Prelude.{
  ℕ, zero, suc, ◌+◌, ◌≤◌, ◌==◌, Bool, true, false, Option, none, some, length, if◌then◌else◌, arith,
}
use llmtune.Model.Gguf.Read.{
  Bytes, Reader, GVal, rd_u32, rd_u64, rd_scalar, repeat, rd_val, pure, ◌>>=◌, ◌>>◌,
}
use llmtune.Model.Gguf.Progress.{
  Left, rd_u32-Consumes, rd_u64-Consumes, rd_scalar-Consumes, rd_val-Consumes,
}

-- What `repeat p cnt` costs, where `cost` is what one `p` costs.
abbrev rounds_cost : {A : Type 0} → Reader A → (Bytes → ℕ) → ℕ → Bytes → ℕ
rounds_cost p cost zero bs = 0
rounds_cost p cost (suc cnt) bs =
    cost bs + elim (p bs) [ none ↦ 0 | some (a, rest) ↦ rounds_cost p cost cnt rest ]

abbrev elements_cost : (ℕ → Reader (Option GVal)) → (ℕ → Bytes → ℕ) → Bytes → ℕ
elements_cost p cost bs = elim (rd_u32 bs) [
  | none ↦ 0
  | some (et, rest) ↦ elim (rd_u64 rest) [
    | none ↦ 0
    | some (cnt, vs) ↦ rounds_cost (p et) (cost et) cnt vs
  ]
]

-- The calls of `rd_val` that reading a value of type `t` makes, the first included.
abbrev pub calls : ℕ → ℕ → Bytes → ℕ
calls zero t bs = 1
calls (suc left) t bs = if t == 9 then 1 + elements_cost (rd_val left) (calls left) bs else 1

-- A success has paid for its calls with bytes; a failure may have one call more.
Paid : {A : Type 0} → ℕ → ℕ → Option (A × Bytes) → Type 0
Paid k n none = k ≤ suc n
Paid k n (some (a, rest)) = length rest + k ≤ n

Paid-most : {A : Type 0} (k n : ℕ) (o : Option (A × Bytes)) → Paid k n o → k ≤ suc n
unfolding Paid
Paid-most k n none h = h
Paid-most k n (some (a, rest)) h = omega arith

add-Paid :
    {A : Type 0} (o : Option (A × Bytes)) (k n c m : ℕ) → Paid k n o → n + c ≤ m → Paid (c + k) m o
unfolding Paid
add-Paid none k n c m h g = omega arith
add-Paid (some (x, rest)) k n c m h g = omega arith

module _ {A B : Type 0} where
  -- A step and what follows it.
  then-Paid :
      (o : Option (A × Bytes)) (f : A → Reader B) (cost : A → Bytes → ℕ) (c n : ℕ)
      → Paid c n o
      → ((a : A) (rest : Bytes) → Paid (cost a rest) (length rest) (f a rest))
      → Paid
          (c + elim o [ none ↦ 0 | some (a, rest) ↦ cost a rest ])
          n
          (elim o [ none ↦ none | some (a, rest) ↦ f a rest ])
  unfolding Paid
  then-Paid none f cost c n h hf = omega arith
  then-Paid (some (a, rest)) f cost c n h hf =
      add-Paid (f a rest) (cost a rest) (length rest) c n (hf a rest) h

  -- A step that calls nothing.
  free-Paid :
      (o : Option (A × Bytes)) (f : A → Reader B) (cost : A → Bytes → ℕ) (j n : ℕ)
      → Left j n o
      → ((a : A) (rest : Bytes) → Paid (cost a rest) (length rest) (f a rest))
      → Paid
          (elim o [ none ↦ 0 | some (a, rest) ↦ cost a rest ])
          n
          (elim o [ none ↦ none | some (a, rest) ↦ f a rest ])
  unfolding Paid
  free-Paid none f cost j n h hf = omega arith
  free-Paid (some (a, rest)) f cost j n h hf = keep (f a rest) (cost a rest) (hf a rest)
    where
      keep : (o : Option (B × Bytes)) (k : ℕ) → Paid k (length rest) o → Paid k n o
      keep none k g = omega arith
      keep (some (b, r)) k g = omega arith

  last-Paid :
      (k n : ℕ) (v : B) (o : Option (A × Bytes))
      → Paid k n o
      → Paid k n (elim o [ none ↦ none | some (a, rest) ↦ pure v rest ])
  unfolding Paid
  last-Paid k n v none h = h
  last-Paid k n v (some (a, rest)) h = h

rounds-Paid :
    {A : Type 0} (p : Reader A) (cost : Bytes → ℕ)
    → ((bs : Bytes) → Paid (cost bs) (length bs) (p bs))
    → (cnt : ℕ) (bs : Bytes) → Paid (rounds_cost p cost cnt bs) (length bs) (repeat p cnt bs)
unfolding repeat Paid
rounds-Paid p cost paid zero bs = omega arith
rounds-Paid p cost paid (suc cnt) bs =
    then-Paid (p bs) (λ a. repeat p cnt) (λ a. rounds_cost p cost cnt) (cost bs) (length bs)
      (paid bs) (λ a rest. rounds-Paid p cost paid cnt rest)

-- A reader that consumes a byte has paid for one call.
step-Paid : {A : Type 0} (o : Option (A × Bytes)) (j n : ℕ) → 1 ≤ j → Left j n o → Paid 1 n o
unfolding Paid
step-Paid none j n g h = omega arith
step-Paid (some (a, rest)) j n g h = omega arith

-- The elements of an array, and that the array's own call is paid for by its header.
array-Paid :
    (p : ℕ → Reader (Option GVal)) (cost : ℕ → Bytes → ℕ)
    → ((t : ℕ) (bs : Bytes) → Paid (cost t bs) (length bs) (p t bs))
    → (bs : Bytes)
    → Paid
        (1 + elements_cost p cost bs)
        (length bs)
        ((do et ← rd_u32; cnt ← rd_u64; repeat (p et) cnt; pure {A = Option GVal} none) bs)
array-Paid p cost paid bs =
    then-Paid (rd_u32 bs) (λ et. do cnt ← rd_u64; repeat (p et) cnt; pure {A = Option GVal} none)
      (λ et rest. elim (rd_u64 rest) [
        | none ↦ 0
        | some (cnt, vs) ↦ rounds_cost (p et) (cost et) cnt vs
      ])
      1 (length bs) (step-Paid (rd_u32 bs) 4 (length bs) (omega arith) (rd_u32-Consumes bs))
      (λ et rest.
        free-Paid (rd_u64 rest) (λ cnt. do repeat (p et) cnt; pure {A = Option GVal} none)
          (rounds_cost (p et) (cost et)) 8 (length rest) (rd_u64-Consumes rest)
          (λ cnt vs.
            last-Paid (rounds_cost (p et) (cost et) cnt vs) (length vs) none (repeat (p et) cnt vs)
              (rounds-Paid (p et) (cost et) (paid et) cnt vs)))

if-Paid :
    {A : Type 0} (c : Bool) (k l n : ℕ) (p q : Reader A) (bs : Bytes)
    → Paid k n (p bs)
    → Paid l n (q bs)
    → Paid (if c then k else l) n ((if c then p else q) bs)
if-Paid true k l n p q bs h g = h
if-Paid false k l n p q bs h g = g

calls-Paid : (left t : ℕ) (bs : Bytes) → Paid (calls left t bs) (length bs) (rd_val left t bs)
unfolding rd_val
calls-Paid zero t bs = step-Paid _ 1 (length bs) (omega arith) (rd_val-Consumes zero t bs)
calls-Paid (suc left) t bs =
    if-Paid (t == 9) _ 1 (length bs) _ (rd_scalar t) bs
      (array-Paid (rd_val left) (calls left) (calls-Paid left) bs)
      (step-Paid (rd_scalar t bs) 1 (length bs) (omega arith) (rd_scalar-Consumes t bs))

-- Reading a value calls `rd_val` at most once for each byte that is left, and once more, whatever
-- counts the arrays in the file announce and however they nest.
pub calls_bounded : (left t : ℕ) (bs : Bytes) → calls left t bs ≤ suc (length bs)
calls_bounded left t bs =
    Paid-most (calls left t bs) (length bs) (rd_val left t bs) (calls-Paid left t bs)
