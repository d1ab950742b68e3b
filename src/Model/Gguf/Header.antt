-- ===== src/Model/Gguf/Header.antt =====
-- src/model.rs: `read_gguf_meta`, `has_mtp_tensors`, `meta_indicates_mtp`, `meta_u64`, `read_dims` and
-- the header's part of `load`, on the bytes of a file.
use llmtune.Prelude.{
  ℕ, zero, suc, ◌/◌, ◌-◌, ◌^◌, ltb, ◌==◌, Bool, true, false, not, ◌||◌, Option, none, some, [],
  ◌++◌, Text, Map, codes, text_eq, contains, to_lowercase, get, insert, any, if◌then◌else◌,
}
use Prim.Native.Nat.{max}
use llmtune.Model.Info.{Model}
use llmtune.Model.Gguf.Read.{
  Bytes, Reader, ◌>>=◌, ◌>>◌, pure, fail, pos, negsuc, GVal, u, i, f, b, str, read_n, rd_u32,
  rd_u64, rd_str, rd_val, repeat, max_gguf_depth,
}

abbrev pub Meta : Type 0
Meta = Map GVal

abbrev pub add_value : Text → Option GVal → Meta → Meta
add_value k none m = m
add_value k (some v) m = insert k v m

-- One key with its value.
unfoldable pub rd_kv : Reader (Text × Option GVal)
unfolding rd_str rd_u32 rd_val
rd_kv = do k ← rd_str; t ← rd_u32; v ← rd_val max_gguf_depth t; pure (k, v)

-- The loop over the key-value pairs.
unfoldable pub rd_kvs : ℕ → Meta → Reader Meta
unfolding rd_kv insert
rd_kvs zero m bs = some (m, bs)
rd_kvs (suc n) m bs = elim (rd_kv bs) [
  | none ↦ none
  | some (kv, rest) ↦ rd_kvs n (add_value kv.0 kv.1 m) rest
]

unfoldable pub rd_magic : Reader (Unit {0})
unfolding read_n text_eq
rd_magic = do magic ← read_n 4; if text_eq magic (codes "GGUF") then pure tt else fail

unfoldable pub rd_meta : Reader Meta
unfolding rd_magic rd_u32 rd_u64 rd_kvs
rd_meta = do rd_magic; rd_u32; rd_u64; n_kv ← rd_u64; rd_kvs n_kv []

abbrev pub value_of : {A : Type 0} → Option (A × Bytes) → Option A
value_of none = none
value_of (some (a, rest)) = some a

unfoldable pub read_gguf_meta : Bytes → Option Meta
unfolding rd_meta
read_gguf_meta file = value_of (rd_meta file)

unfoldable pub names_mtp : Text → Bool
unfolding to_lowercase contains
names_mtp name = let n = to_lowercase name in contains n (codes "nextn") || contains n (codes "mtp")

abbrev is_truthy : GVal → Bool
is_truthy (u n) = ltb 0 n
is_truthy (i (pos n)) = ltb 0 n
is_truthy (i (negsuc n)) = false
is_truthy (f n) = true
is_truthy (b v) = v
is_truthy (str s) = true

unfoldable pub meta_indicates_mtp : Meta → Bool
unfolding names_mtp
meta_indicates_mtp m = any (λ e. if not (names_mtp e.0) then false else is_truthy e.1) m

-- The tensor's dimensions, type and offset.
unfoldable pub rd_tensor_rest : Reader (Unit {0})
unfolding rd_u32 rd_u64 repeat
rd_tensor_rest = do nd ← rd_u32; repeat rd_u64 nd; rd_u32; rd_u64; pure tt

-- The loop over the tensors; what cannot be read ends it with `false`.
unfoldable pub scan_tensors : ℕ → Bytes → Bool
unfolding rd_str names_mtp rd_tensor_rest
scan_tensors zero bs = false
scan_tensors (suc n) bs = elim (rd_str bs) [
  | none ↦ false
  | some (name, rest) ↦ elim (names_mtp name) [
    | true ↦ true
    | false ↦ elim (rd_tensor_rest rest) [ none ↦ false | some (x, next) ↦ scan_tensors n next ]
  ]
]

-- The counts of tensors and of key-value pairs, behind the version.
unfoldable pub rd_counts : Reader (ℕ × ℕ)
unfolding rd_magic rd_u32 rd_u64
rd_counts = do rd_magic; rd_u32; tensors ← rd_u64; n_kv ← rd_u64; pure (tensors, n_kv)

unfoldable pub has_mtp_tensors : Bytes → Bool
unfolding rd_counts rd_kv repeat scan_tensors
has_mtp_tensors file = elim (rd_counts file) [
  | none ↦ false
  | some (counts, kvs) ↦ elim (repeat rd_kv counts.1 kvs) [
    | none ↦ false
    | some (x, infos) ↦ scan_tensors counts.0 infos
  ]
]

-- A metadata value as an unsigned number; a negative one is none.
abbrev as_unsigned : Option GVal → Option ℕ
as_unsigned (some (u n)) = some n
as_unsigned (some (i (pos n))) = some n
as_unsigned _ = none

unfoldable pub meta_u64 : Meta → Text → Option ℕ
unfolding get text_eq
meta_u64 m key = as_unsigned (get key m)

abbrev pub arch_value : Option GVal → Option Text
arch_value (some (str s)) = some s
arch_value _ = none

unfoldable pub arch_of : Meta → Option Text
unfolding get text_eq
arch_of m = arch_value (get (codes "general.architecture") m)

-- `mem::Dims`
pub record Dims : Type 0 where
  pub n_layers : ℕ
  pub n_head : ℕ
  pub n_head_kv : ℕ
  pub head_dim : ℕ
  pub ctx_train : Option ℕ

abbrev pub number_or : Option ℕ → ℕ → ℕ
number_or none d = d
number_or (some n) d = n

abbrev dims_from : Meta → Text → Option ℕ → Option ℕ → Option ℕ → Option Dims
dims_from m arch (some layers) (some heads) (some embd) =
    if heads == 0 || layers == 0
    then none
    else some (record {
      n_layers = layers;
      n_head = heads;
      n_head_kv = number_or (meta_u64 m (arch ++ codes ".attention.head_count_kv")) heads;
      head_dim =
          number_or (meta_u64 m (arch ++ codes ".attention.key_length")) (embd / max heads 1);
      ctx_train = meta_u64 m (arch ++ codes ".context_length");
    })
dims_from m arch _ _ _ = none

abbrev dims_of : Meta → Option Text → Option Dims
dims_of m none = none
dims_of m (some arch) =
    dims_from m arch (meta_u64 m (arch ++ codes ".block_count"))
      (meta_u64 m (arch ++ codes ".attention.head_count"))
      (meta_u64 m (arch ++ codes ".embedding_length"))

abbrev meta_dims : Option Meta → Option Dims
meta_dims none = none
meta_dims (some m) = dims_of m (arch_of m)

unfoldable pub read_dims : Bytes → Option Dims
unfolding read_gguf_meta arch_of meta_u64
read_dims file = meta_dims (read_gguf_meta file)

abbrev loaded_context : Option GVal → Option ℕ
loaded_context (some (u n)) = some n
loaded_context (some (i (pos n))) = some n
loaded_context (some (i (negsuc n))) = some (2 ^ 64 - 1 - n)
loaded_context _ = none

abbrev meta_or_empty : Option Meta → Meta
meta_or_empty none = []
meta_or_empty (some m) = m

abbrev arch_or_unknown : Option Text → Text
arch_or_unknown none = codes "?"
arch_or_unknown (some a) = a

-- `load` of a file with the name, size and bytes given. The two regular expressions are arguments.
unfoldable pub load : (Text → Option Text) → (Text → Option Text) → Text → Text → ℕ → Bytes → Model
unfolding read_gguf_meta arch_of get meta_indicates_mtp has_mtp_tensors
load param_from_name quant_from_name path name size_bytes file =
    let m = meta_or_empty (read_gguf_meta file) in
    let arch = arch_or_unknown (arch_of m) in
    record {
      path = path;
      name = name;
      arch = arch;
      params = param_from_name name;
      quant = quant_from_name name;
      size_bytes = size_bytes;
      ctx_max = loaded_context (get (arch ++ codes ".context_length") m);
      has_mtp = meta_indicates_mtp m || has_mtp_tensors file;
    }
