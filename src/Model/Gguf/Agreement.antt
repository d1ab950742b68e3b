-- ===== src/Model/Gguf/Agreement.antt =====
-- src/model.rs: `has_mtp_tensors` skips the block that `read_gguf_meta` reads, and finds tensors by name.
use llmtune.Prelude.{ℕ, zero, suc, ◌≡◌, refl, ap, true, false, Option, none, some, [], Text}
use llmtune.Model.Gguf.Read.{Bytes, Reader, GVal, rd_u32, rd_u64, repeat}
use llmtune.Model.Gguf.Header.{
  Meta, add_value, rd_kv, rd_kvs, rd_magic, rd_meta, rd_counts, read_gguf_meta, scan_tensors,
  has_mtp_tensors, value_of,
}

-- The result of a reader is there.
abbrev Reads : {A : Type 0} → Option (A × Bytes) → Type 0
Reads {A} o = (a : A) × (rest : Bytes) × (o ≡ some (a, rest))

rd_kvs-Reads : (n : ℕ) (m : Meta) (bs : Bytes) → Reads (repeat rd_kv n bs) → Reads (rd_kvs n m bs)
unfolding repeat rd_kvs
rd_kvs-Reads zero m bs h = (m, bs, refl)
rd_kvs-Reads (suc n) m bs h = go (rd_kv bs) (λ m rest. rd_kvs-Reads n m rest) h
  where
    go :
        (o : Option ((Text × Option GVal) × Bytes))
        → ((m : Meta) (rest : Bytes) → Reads (repeat rd_kv n rest) → Reads (rd_kvs n m rest))
        → Reads (elim o [ none ↦ none | some (a, rest) ↦ repeat rd_kv n rest ])
        → Reads (elim o [ none ↦ none | some (kv, rest) ↦ rd_kvs n (add_value kv.0 kv.1 m) rest ])
    go none ih (a, rest, e) = cc
    go (some (kv, rest)) ih h = ih (add_value kv.0 kv.1 m) rest h

-- Behind the counts, as many pairs as they say can be skipped.
abbrev Skips : Option ((ℕ × ℕ) × Bytes) → Type 0
Skips none = ⊥
Skips (some (counts, kvs)) = Reads (repeat rd_kv counts.1 kvs)

-- A relation of two readers that start with the same one.
same_start :
    {A B C : Type 0} (P : Option (B × Bytes) → Option (C × Bytes) → Type 0)
    → P none none
    → (o : Option (A × Bytes)) (f : A → Reader B) (g : A → Reader C)
    → ((a : A) (rest : Bytes) → P (f a rest) (g a rest))
    → P
        (elim o [ none ↦ none | some (a, rest) ↦ f a rest ])
        (elim o [ none ↦ none | some (a, rest) ↦ g a rest ])
same_start P h none f g k = h
same_start P h (some (a, rest)) f g k = k a rest

abbrev Agree : Option ((ℕ × ℕ) × Bytes) → Option (Meta × Bytes) → Type 0
Agree x y = Skips x → Reads y

counts-Agree : (file : Bytes) → Agree (rd_counts file) (rd_meta file)
unfolding rd_counts rd_meta
counts-Agree file =
    same_start Agree (λ h. elim h [ ]) (rd_magic file) _ _
      (λ a r₁.
        same_start Agree (λ h. elim h [ ]) (rd_u32 r₁) _ _
          (λ version r₂.
            same_start Agree (λ h. elim h [ ]) (rd_u64 r₂) _ _
              (λ tensors r₃.
                same_start Agree (λ h. elim h [ ]) (rd_u64 r₃) _ _
                  (λ n_kv r₄ h. rd_kvs-Reads n_kv [] r₄ h))))

skipped :
    (o : Option ((ℕ × ℕ) × Bytes))
    → (elim o [
      | none ↦ false
      | some (counts, kvs) ↦ elim (repeat rd_kv counts.1 kvs) [
        | none ↦ false
        | some (x, infos) ↦ scan_tensors counts.0 infos
      ]
    ])
      ≡ true
    → Skips o
skipped none h = cc
skipped (some (counts, kvs)) h = go (repeat rd_kv counts.1 kvs) h
  where
    go :
        (o : Option (Unit {0} × Bytes))
        → (elim o [ none ↦ false | some (x, infos) ↦ scan_tensors counts.0 infos ]) ≡ true
        → Reads o
    go none e = cc
    go (some (x, infos)) e = (x, infos, refl)

-- Where the scan of a file's tensors finds an MTP layer, `read_gguf_meta` reads the file's
-- metadata without an error.
pub has_mtp_tensors-reads :
    (file : Bytes) → has_mtp_tensors file ≡ true → (m : Meta) × (read_gguf_meta file ≡ some m)
unfolding has_mtp_tensors read_gguf_meta
has_mtp_tensors-reads file h =
    let (m, rest, e) = counts-Agree file (skipped (rd_counts file) h) in (m, ap value_of e)
