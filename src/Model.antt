-- ===== src/Model.antt =====
-- src/model.rs: what is known of a model file, and the tests on names and architectures.
pub mod Info
pub mod Gguf
pub use Info.{Model}
use llmtune.Prelude.{
  ℕ, Bool, not, ◌&&◌, Option, List, [], ◌∷◌, Text, codes, any, contains, starts_with, to_lowercase,
}

unfoldable pub is_chat_model : Text → Bool
unfolding contains to_lowercase
is_chat_model name =
    let n = to_lowercase name in
    not (contains n (codes "embedding"))
    && not (contains n (codes "embed"))
    && not (contains n (codes "rerank"))

abbrev pub recurrent_arch_prefixes : List Text
recurrent_arch_prefixes =
    codes "lfm2"
    ∷ codes "mamba"
    ∷ codes "rwkv"
    ∷ codes "arwkv"
    ∷ codes "jamba"
    ∷ codes "falcon-h1"
    ∷ codes "granitehybrid"
    ∷ codes "nemotron_h"
    ∷ codes "plamo2"
    ∷ codes "qwen3next"
    ∷ []

unfoldable pub is_recurrent_arch : Text → Bool
unfolding starts_with to_lowercase
is_recurrent_arch arch = any (λ p. starts_with (to_lowercase arch) p) recurrent_arch_prefixes
