-- ===== src/Tests/GgufRuns.antt =====
-- The reader of GGUF headers on small files.
use llmtune.Prelude.{ℕ, suc, ◌≤◌, ◌≡◌, refl, true, some, [], ◌∷◌, ◌++◌, codes, length}
use llmtune.Model.Gguf.Read.{Bytes}
use llmtune.Model.Gguf.Header.{Meta, read_gguf_meta, has_mtp_tensors}
use llmtune.Model.Gguf.Calls.{calls, calls_bounded}
use llmtune.Model.Gguf.Agreement.{has_mtp_tensors-reads}

abbrev bytes4 : ℕ → Bytes
bytes4 n = n ∷ 0 ∷ 0 ∷ 0 ∷ []

abbrev bytes8 : ℕ → Bytes
bytes8 n = n ∷ 0 ∷ 0 ∷ 0 ∷ 0 ∷ 0 ∷ 0 ∷ 0 ∷ []

-- An array that announces 200 arrays and holds one.
abbrev nested : Bytes
nested = bytes4 9 ++ (bytes8 200 ++ (bytes4 0 ++ (bytes8 2 ++ (7 ∷ 8 ∷ []))))

-- One pair and two tensors, the second one of an MTP layer.
abbrev pair : Bytes
pair = bytes8 1 ++ (codes "a" ++ (bytes4 0 ++ 5 ∷ []))

abbrev tensors : Bytes
tensors =
    bytes8 1
    ++ (codes "w"
        ++ (bytes4 1 ++ (bytes8 4 ++ (bytes4 0 ++ (bytes8 0 ++ (bytes8 3 ++ codes "mtp"))))))

abbrev small_file : Bytes
small_file = codes "GGUF" ++ (bytes4 3 ++ (bytes8 2 ++ (bytes8 1 ++ (pair ++ tensors))))

small_file_tensors : has_mtp_tensors small_file ≡ true
unfolding has_mtp_tensors
small_file_tensors = refl

calls_bounded_example : calls 8 9 nested ≤ suc (length nested)
calls_bounded_example = calls_bounded 8 9 nested

has_mtp_tensors-reads_example : (m : Meta) × (read_gguf_meta small_file ≡ some m)
has_mtp_tensors-reads_example = has_mtp_tensors-reads small_file small_file_tensors
