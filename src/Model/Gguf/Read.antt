-- ===== src/Model/Gguf/Read.antt =====
-- src/model.rs: `read_n`, `rd_u32`, `rd_u64`, `rd_str` and `rd_val`.
-- A reader takes the bytes that are left and returns a value with the bytes behind it; `none` is an
-- error, whose text no caller looks at. A string is its bytes.
use llmtune.Prelude.{
  ℕ, zero, suc, ◌+◌, ◌-◌, ◌*◌, ◌^◌, ltb, ◌==◌, Bool, not, Option, none, some, List, [], ◌∷◌, Text,
  if◌then◌else◌,
}

abbrev pub Bytes : Type 0
Bytes = List ℕ

abbrev pub Reader : Type 0 → Type 0
Reader A = Bytes → Option (A × Bytes)

infixl 5 ◌>>=◌ ◌>>◌
abbrev pub ◌>>=◌ : {A B : Type 0} → Reader A → (A → Reader B) → Reader B
◌>>=◌ m f bs = elim (m bs) [ none ↦ none | some (a, rest) ↦ f a rest ]

abbrev pub ◌>>◌ : {A B : Type 0} → Reader A → Reader B → Reader B
m >> k = m >>= λ _. k

abbrev pub pure : {A : Type 0} → A → Reader A
pure a bs = some (a, bs)

abbrev pub fail : {A : Type 0} → Reader A
fail bs = none

-- `i64`
pub data ℤ : Type 0 where
  pos : ℕ → ℤ
  negsuc : ℕ → ℤ

-- A float is its bit pattern.
pub data GVal : Type 0 where
  u : ℕ → GVal
  i : ℤ → GVal
  f : ℕ → GVal
  b : Bool → GVal
  str : Text → GVal

abbrev pub cons_first : ℕ → Option (Bytes × Bytes) → Option (Bytes × Bytes)
cons_first c none = none
cons_first c (some (taken, rest)) = some (c ∷ taken, rest)

unfoldable pub read_n : ℕ → Reader Bytes
read_n zero bs = some ([], bs)
read_n (suc n) [] = none
read_n (suc n) (c ∷ bs) = cons_first c (read_n n bs)

-- `from_le_bytes`, unsigned
unfoldable pub from_le : Bytes → ℕ
from_le [] = 0
from_le (c ∷ bs) = c + 256 * from_le bs

-- `from_le_bytes`, signed, of `w` bytes
unfoldable pub from_le_signed : ℕ → Bytes → ℤ
unfolding from_le
from_le_signed w bs =
    let n = from_le bs in if ltb n (2 ^ (8 * w - 1)) then pos n else negsuc (2 ^ (8 * w) - 1 - n)

unfoldable pub rd_u32 : Reader ℕ
unfolding read_n from_le
rd_u32 = do bs ← read_n 4; pure (from_le bs)

unfoldable pub rd_u64 : Reader ℕ
unfolding read_n from_le
rd_u64 = do bs ← read_n 8; pure (from_le bs)

abbrev pub max_str : ℕ
max_str = 64 * 1024 * 1024

unfoldable pub rd_str : Reader Text
unfolding rd_u64 read_n
rd_str = do n ← rd_u64; if ltb max_str n then fail else read_n n

unfoldable pub unsigned : ℕ → Reader (Option GVal)
unfolding read_n from_le
unsigned w = do bs ← read_n w; pure (some (u (from_le bs)))

unfoldable pub signed : ℕ → Reader (Option GVal)
unfolding read_n from_le_signed
signed w = do bs ← read_n w; pure (some (i (from_le_signed w bs)))

unfoldable pub floating : ℕ → Reader (Option GVal)
unfolding read_n from_le
floating w = do bs ← read_n w; pure (some (f (from_le bs)))

unfoldable pub boolean : Reader (Option GVal)
unfolding read_n from_le
boolean = do bs ← read_n 1; pure (some (b (not (from_le bs == 0))))

unfoldable pub string : Reader (Option GVal)
unfolding rd_str
string = do s ← rd_str; pure (some (str s))

-- The arms of `rd_val` but the array's.
unfoldable pub rd_scalar : ℕ → Reader (Option GVal)
unfolding unsigned signed floating boolean string
rd_scalar t =
    if t == 0
    then unsigned 1
    else if t == 1
    then signed 1
    else if t == 2
    then unsigned 2
    else if t == 3
    then signed 2
    else if t == 4
    then unsigned 4
    else if t == 5
    then signed 4
    else if t == 6
    then floating 4
    else if t == 7
    then boolean
    else if t == 8
    then string
    else if t == 10
    then unsigned 8
    else if t == 11
    then signed 8
    else if t == 12
    then floating 8
    else fail

-- `for _ in 0..cnt { p?; }`
unfoldable pub repeat : {A : Type 0} → Reader A → ℕ → Reader (Unit {0})
repeat p zero bs = some (tt, bs)
repeat p (suc cnt) bs = elim (p bs) [ none ↦ none | some (a, rest) ↦ repeat p cnt rest ]

abbrev pub max_gguf_depth : ℕ
max_gguf_depth = 8

-- `rd_val` at a depth that is `left` below the largest: with none left an array is refused.
unfoldable pub rd_val : ℕ → ℕ → Reader (Option GVal)
unfolding rd_scalar rd_u32 rd_u64 repeat
rd_val zero t = if t == 9 then fail else rd_scalar t
rd_val (suc left) t =
    if t == 9
    then (do et ← rd_u32; cnt ← rd_u64; repeat (rd_val left et) cnt; pure none)
    else rd_scalar t
