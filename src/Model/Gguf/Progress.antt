-- ===== src/Model/Gguf/Progress.antt =====
-- src/model.rs: every read consumes bytes, so no count in a file makes the reader spin.
use llmtune.Prelude.{
  ℕ, zero, suc, ◌+◌, ◌≤◌, ltb, ◌==◌, Bool, true, false, not, Option, none, some, [], ◌∷◌, Text,
  length, if◌then◌else◌, arith,
}
use llmtune.Model.Gguf.Read.{
  from_le, from_le_signed, Bytes, Reader, ◌>>=◌, pure, fail, GVal, cons_first, read_n, rd_u32,
  rd_u64, rd_str, unsigned, signed, floating, boolean, string, rd_scalar, repeat, rd_val, max_str,
}

-- `k` of the `n` bytes or more are consumed, if there is a result.
abbrev pub Left : {A : Type 0} → ℕ → ℕ → Option (A × Bytes) → Type 0
Left k n none = Unit
Left k n (some (a, rest)) = length rest + k ≤ n

-- Where the reader succeeds it has consumed `k` bytes or more.
abbrev pub Consumes : {A : Type 0} → ℕ → Reader A → Type 0
Consumes k p = (bs : Bytes) → Left k (length bs) (p bs)

cons_first-Left :
    (k n c : ℕ) (o : Option (Bytes × Bytes)) → Left k n o → Left (suc k) (suc n) (cons_first c o)
cons_first-Left k n c none h = tt
cons_first-Left k n c (some (taken, rest)) h = omega arith

read_n-Consumes : (n : ℕ) → Consumes n (read_n n)
unfolding read_n
read_n-Consumes zero bs = omega arith
read_n-Consumes (suc n) [] = tt
read_n-Consumes (suc n) (c ∷ bs) =
    cons_first-Left n (length bs) c (read_n n bs) (read_n-Consumes n bs)

Left-weaken :
    {A : Type 0} (k l n m : ℕ) (o : Option (A × Bytes)) → l ≤ k → n ≤ m → Left k n o → Left l m o
Left-weaken k l n m none a b h = tt
Left-weaken k l n m (some (x, rest)) a b h = omega arith

module _ {A B : Type 0} where
  bind-Left :
      (j k n : ℕ) (o : Option (A × Bytes)) (f : A → Reader B)
      → Left j n o
      → ((a : A) → Consumes k (f a))
      → Left (j + k) n (elim o [ none ↦ none | some (a, rest) ↦ f a rest ])
  bind-Left j k n none f h hf = tt
  bind-Left j k n (some (a, rest)) f h hf = shift (f a rest) (hf a rest)
    where
      shift : (o : Option (B × Bytes)) → Left k (length rest) o → Left (j + k) n o
      shift none g = tt
      shift (some (x, r)) g = omega arith

  bind-Consumes :
      (j k : ℕ) (m : Reader A) (f : A → Reader B)
      → Consumes j m
      → ((a : A) → Consumes k (f a))
      → Consumes (j + k) (m >>= f)
  bind-Consumes j k m f hm hf bs = bind-Left j k (length bs) (m bs) f (hm bs) hf

pure-Consumes : {A : Type 0} (a : A) → Consumes 0 (pure a)
pure-Consumes a bs = omega arith

fail-Consumes : (A : Type 0) (k : ℕ) → Consumes k (fail {A = A})
fail-Consumes A k bs = tt

if-Consumes :
    {A : Type 0} (k : ℕ) (c : Bool) (p q : Reader A)
    → Consumes k p
    → Consumes k q
    → Consumes k (if c then p else q)
if-Consumes k true p q hp hq = hp
if-Consumes k false p q hp hq = hq

weak : {A : Type 0} (k l : ℕ) (p : Reader A) → l ≤ k → Consumes k p → Consumes l p
weak k l p h hp bs = Left-weaken k l (length bs) (length bs) (p bs) h (omega arith) (hp bs)

-- Each round of a loop over a count consumes a byte.
pub repeat-Consumes :
    {A : Type 0} (p : Reader A) → Consumes 1 p → (cnt : ℕ) → Consumes cnt (repeat p cnt)
unfolding repeat
repeat-Consumes p hp zero bs = omega arith
repeat-Consumes p hp (suc cnt) bs =
    Left-weaken (1 + cnt) (suc cnt) (length bs) (length bs) _ (omega arith) (omega arith) (
      bind-Left 1 cnt (length bs) (p bs) (λ _. repeat p cnt) (hp bs)
        (λ _. repeat-Consumes p hp cnt))

read_pure-Consumes :
    {A : Type 0} (w : ℕ) (g : Bytes → A) → Consumes w (read_n w >>= λ bs. pure (g bs))
read_pure-Consumes w g bs =
    Left-weaken (w + 0) w (length bs) (length bs) _ (omega arith) (omega arith) (
      bind-Consumes w 0 (read_n w) (λ t. pure (g t)) (read_n-Consumes w) (λ a. pure-Consumes (g a))
        bs)

pub rd_u32-Consumes : Consumes 4 rd_u32
unfolding rd_u32
rd_u32-Consumes = read_pure-Consumes 4 from_le

pub rd_u64-Consumes : Consumes 8 rd_u64
unfolding rd_u64
rd_u64-Consumes = read_pure-Consumes 8 from_le

pub rd_str-Consumes : Consumes 8 rd_str
unfolding rd_str
rd_str-Consumes = bind-Consumes 8 0 rd_u64 _ rd_u64-Consumes (λ n.
    if-Consumes 0 (ltb max_str n) fail (read_n n) (fail-Consumes Text 0)
      (weak n 0 (read_n n) (omega arith) (read_n-Consumes n)))

string-Consumes : Consumes 8 string
unfolding string
string-Consumes =
    bind-Consumes 8 0 rd_str _ rd_str-Consumes (λ s. pure-Consumes (some (GVal.str s)))

unsigned-Consumes : (w : ℕ) → 1 ≤ w → Consumes 1 (unsigned w)
unfolding unsigned
unsigned-Consumes w h = weak w 1 _ h (read_pure-Consumes w (λ bs. some (GVal.u (from_le bs))))

signed-Consumes : (w : ℕ) → 1 ≤ w → Consumes 1 (signed w)
unfolding signed
signed-Consumes w h =
    weak w 1 _ h (read_pure-Consumes w (λ bs. some (GVal.i (from_le_signed w bs))))

floating-Consumes : (w : ℕ) → 1 ≤ w → Consumes 1 (floating w)
unfolding floating
floating-Consumes w h = weak w 1 _ h (read_pure-Consumes w (λ bs. some (GVal.f (from_le bs))))

boolean-Consumes : Consumes 1 boolean
unfolding boolean
boolean-Consumes = read_pure-Consumes 1 (λ bs. some (GVal.b (not (from_le bs == 0))))

if_else :
    (c : Bool) (p q : Reader (Option GVal))
    → Consumes 1 p
    → Consumes 1 q
    → Consumes 1 (if c then p else q)
if_else = if-Consumes 1

pub rd_scalar-Consumes : (t : ℕ) → Consumes 1 (rd_scalar t)
unfolding rd_scalar
rd_scalar-Consumes t = if_else (t == 0) _ _ (unsigned-Consumes 1 (omega arith)) (
    if_else (t == 1) _ _ (signed-Consumes 1 (omega arith)) (
      if_else (t == 2) _ _ (unsigned-Consumes 2 (omega arith)) (
        if_else (t == 3) _ _ (signed-Consumes 2 (omega arith)) (
          if_else (t == 4) _ _ (unsigned-Consumes 4 (omega arith)) (
            if_else (t == 5) _ _ (signed-Consumes 4 (omega arith)) (
              if_else (t == 6) _ _ (floating-Consumes 4 (omega arith)) (
                if_else (t == 7) _ _ boolean-Consumes (
                  if_else (t == 8) _ _ (weak 8 1 string (omega arith) string-Consumes) (
                    if_else (t == 10) _ _ (unsigned-Consumes 8 (omega arith)) (
                      if_else (t == 11) _ _ (signed-Consumes 8 (omega arith)) (
                        if_else (t == 12) _ _ (floating-Consumes 8 (omega arith))
                          (fail-Consumes (Option GVal) 1))))))))))))

-- A value that is read has consumed a byte at least, at any depth.
pub rd_val-Consumes : (left t : ℕ) → Consumes 1 (rd_val left t)
unfolding rd_val
rd_val-Consumes zero t =
    if_else (t == 9) fail (rd_scalar t) (fail-Consumes (Option GVal) 1) (rd_scalar-Consumes t)
rd_val-Consumes (suc left) t =
    if_else (t == 9) _ (rd_scalar t)
      (weak 4 1 _ (omega arith) (
        bind-Consumes 4 0 rd_u32 _ rd_u32-Consumes (λ et. weak 8 0 _ (omega arith) (
          bind-Consumes 8 0 rd_u64 _ rd_u64-Consumes (λ cnt. weak (cnt + 0) 0 _ (omega arith) (
            bind-Consumes cnt 0 (repeat (rd_val left et) cnt) _
              (repeat-Consumes (rd_val left et) (rd_val-Consumes left et) cnt)
              (λ x. pure-Consumes {A = Option GVal} none)))))))
      (rd_scalar-Consumes t)
