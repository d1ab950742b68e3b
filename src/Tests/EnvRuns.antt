-- ===== src/Tests/EnvRuns.antt =====
-- Environments, drop-ins and flags.
use llmtune.Prelude.{
  ℕ, ◌≡◌, refl, Bool, true, false, not, ◌&&◌, none, some, [], ◌∷◌, Text, Map, codes, get, text_eq,
  All, is_whitespace, ◌==◌, insert, text_lt, lacks_sound, contains, split_whitespace,
}
use llmtune.Model.{Model}
use llmtune.Profile.{Profile}
use llmtune.Swap.Env.{merged_env, render_dropin}
use llmtune.Swap.Env.Split.{parse_unit_env}
use llmtune.Swap.Env.Reading.{is_quote}
use llmtune.Swap.Env.Merge.{merged_env_precedence}
use llmtune.Swap.Env.Parsing.{IsName, IsEntry, is_newline}
use llmtune.Swap.Env.RoundTrip.{IsLaunch, parse-render}
use llmtune.Swap.Flags.{adjust_flags}
use llmtune.Swap.Flags.Mtp.{HasNoMtp, survivors, adjust_flags_no_mtp}
use llmtune.Swap.Flags.Guard.{IsGuarded, is_big_dense, adjust_flags_guard}

abbrev base : Map Text
base = (codes "A", codes "1 2") ∷ (codes "B", codes "x") ∷ []

abbrev ternary : Profile
ternary = record {
  id = codes "t";
  arch_match = [];
  quant_match = [];
  build = none;
  bin = codes "/b/llama-server";
  ld_path = none;
  env = (codes "B", codes "y") ∷ [];
  flags = codes "-c 98304 --spec-type draft-mtp -ngl 99";
}

abbrev big : Bool → Model
big mtp = record {
  path = codes "/m/q.gguf";
  name = codes "q.gguf";
  arch = codes "qwen35";
  params = none;
  quant = none;
  size_bytes = 9_500_000_000;
  ctx_max = none;
  has_mtp = mtp;
}

adjusted : adjust_flags ternary (big false) ≡ codes "-c 32768 -ngl 99"
unfolding adjust_flags
adjusted = refl

merged_env_precedence_example :
    get (codes "B") (merged_env base none ternary.env) ≡ some (codes "y")
unfolding get text_eq
merged_env_precedence_example = merged_env_precedence (codes "B") base none ternary.env (tt, tt)

name :
    (c : ℕ) → is_whitespace c ≡ false → is_quote c ≡ false → (c == b'=') ≡ false → IsName (c ∷ [])
name c blank quote equals = record {
  nonempty = (c, [], refl);
  no_blank = (blank, tt);
  no_quote = (quote, tt);
  no_equals = (equals, tt);
}

entries : All IsEntry (merged_env base none ternary.env)
unfolding merged_env is_whitespace insert text_eq text_lt
entries = (
  (
    name b'A' refl refl refl,
    lacks_sound is_quote (codes "1 2") refl,
    lacks_sound is_newline (codes "1 2") refl,
  ),
  (
    (
      name b'B' refl refl refl,
      lacks_sound is_quote (codes "y") refl,
      lacks_sound is_newline (codes "y") refl,
    ),
    tt,
  ),
)

IsLaunch-texts : IsLaunch (codes "/b/s") (codes "/m/q.gguf") (codes "127.0.0.1") (codes "-ngl 99")
IsLaunch-texts = record {
  bin_line = lacks_sound is_newline (codes "/b/s") refl;
  path_line = lacks_sound is_newline (codes "/m/q.gguf") refl;
  host_line = lacks_sound is_newline (codes "127.0.0.1") refl;
  flags_line = lacks_sound is_newline (codes "-ngl 99") refl;
}

parse-render_example :
    parse_unit_env (
      render_dropin ternary
        (codes "/b/s")
        none
        (codes "-ngl 99")
        (codes "/m/q.gguf")
        (codes "127.0.0.1")
        8080
        base)
    ≡ merged_env base none ternary.env
unfolding merged_env text_lt
parse-render_example =
    parse-render ternary (codes "/b/s") none (codes "-ngl 99") (codes "/m/q.gguf")
      (codes "127.0.0.1") 8080 base ((refl, tt), (tt, tt)) entries IsLaunch-texts

adjust_flags_no_mtp_example :
    (guarded : Text) × IsGuarded (is_big_dense (big false)) ternary.flags guarded
    × (split_whitespace (adjust_flags ternary (big false))
        ≡ survivors none (split_whitespace guarded))
    × HasNoMtp (split_whitespace (adjust_flags ternary (big false)))
adjust_flags_no_mtp_example = adjust_flags_no_mtp ternary (big false) refl

adjust_flags_guard_example :
    IsGuarded (is_big_dense (big true)) ternary.flags (adjust_flags ternary (big true))
    × (contains (adjust_flags ternary (big true)) (codes "-c 98304")
        ≡ not (is_big_dense (big true)) && contains ternary.flags (codes "-c 98304"))
adjust_flags_guard_example = adjust_flags_guard ternary (big true) refl
