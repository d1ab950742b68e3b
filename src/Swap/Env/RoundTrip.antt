-- ===== src/Swap/Env/RoundTrip.antt =====
-- src/swap.rs: the environment of a whole drop-in, read back.
use llmtune.Prelude.{
  ℕ, ◌≡◌, ◌∙◌, refl, sym, ap, true, false, Option, none, some, [], ◌∷◌, ◌++◌, append_assoc,
  append-nil, Text, Map, codes, insert, insert_last, IsMap, Above, insert-IsMap, is_whitespace,
  drop_cr, lines, trim, trim_start, newline, All, text_lt, Lacks, lacks_sound, Lacks-append, parent,
  show, show-Lacks, LacksAll, parent-Lacks,
}
use llmtune.Profile.{Profile}
use llmtune.Swap.Env.{
  env_line, env_lines, overlay, merged_env, exec_lines, render_dropin, working_directory,
}
use llmtune.Swap.Env.Split.{unit_line, unit_lines, parse_unit_env}
use llmtune.Swap.Env.Reading.{drop_cr-cons, trim_end-cons}
use llmtune.Swap.Env.Parsing.{IsEntry, is_newline, env_line_reads, first_line}

entry_reads :
    (k v rest : Text) (env : Map Text)
    → IsEntry (k, v)
    → unit_lines (lines (env_line k v ++ rest)) (true, env)
      ≡ unit_lines (lines rest) (true, insert k v env)
entry_reads [] v rest env (name, vq, vn) = cc (name.nonempty.2)
entry_reads (c ∷ k) v rest env h = env_line_reads c k v rest env h

env_lines-reads :
    (m : Map Text) (rest : Text) (env : Map Text)
    → All IsEntry m
    → unit_lines (lines (env_lines m ++ rest)) (true, env)
      ≡ unit_lines (lines rest) (true, overlay env m)
unfolding env_lines overlay
env_lines-reads [] rest env h = refl
env_lines-reads ((k, v) ∷ m) rest env (entry, h) =
    ap (λ t. unit_lines (lines t) (true, env)) (append_assoc (env_line k v) (env_lines m) rest)
    ∙ entry_reads k v (env_lines m ++ rest) env entry
    ∙ env_lines-reads m rest (insert k v env) h

module _ (j v : Text) (env : Map Text) where
  heads : (m : Map Text) → All (λ e. Above e.0 ((j, v) ∷ env)) m → All (λ e. text_lt e.0 j ≡ true) m
  heads [] h = tt
  heads (e ∷ m) h = (h.0.0, heads m h.1)

  tails :
      (m : Map Text)
      → All (λ e. Above e.0 ((j, v) ∷ env)) m
      → Above j env
      → All (λ e. Above e.0 env) (m ++ (j, v) ∷ [])
  tails [] h above = (above, tt)
  tails (e ∷ m) h above = (h.0.1, tails m h.1 above)

-- Putting the entries of a map into the empty map, in order, gives the map.
overlay-append :
    (m env : Map Text) → All (λ e. Above e.0 env) m → IsMap env → overlay m env ≡ m ++ env
unfolding overlay
overlay-append m [] h k = sym (append-nil m)
overlay-append m ((j, v) ∷ env) h (above, k) =
    ap (λ n. overlay n env) (insert_last j v m (heads j v env m h))
    ∙ overlay-append (m ++ (j, v) ∷ []) env (tails j v env m h above) k
    ∙ append_assoc m ((j, v) ∷ []) env

pub overlay-IsMap : (m env : Map Text) → IsMap m → IsMap (overlay m env)
unfolding overlay
overlay-IsMap m [] h = h
overlay-IsMap m ((k, v) ∷ env) h = overlay-IsMap (insert k v m) env (insert-IsMap k v m h)

merged_env-IsMap :
    (base : Map Text) (ld : Option Text) (env : Map Text)
    → IsMap base
    → IsMap (merged_env base ld env)
unfolding merged_env
merged_env-IsMap base none env h = overlay-IsMap base env h
merged_env-IsMap base (some ld) env h =
    overlay-IsMap (insert (codes "LD_LIBRARY_PATH") ld base) env
      (insert-IsMap (codes "LD_LIBRARY_PATH") ld base h)

-- The lines behind the environment assign nothing.
w_line :
    (t : Text) (env : Map Text) → unit_line (trim (drop_cr (b'W' ∷ t))) (true, env) ≡ (true, env)
unfolding unit_line trim_start
w_line t env =
    ap (λ l. unit_line (trim l) (true, env)) (drop_cr-cons b'W' t refl)
    ∙ ap (λ l. unit_line l (true, env))
        (trim_end-cons b'W' (drop_cr t) (unfold is_whitespace in refl))

e_line :
    (t : Text) (env : Map Text)
    → unit_line (trim (drop_cr (b'E' ∷ b'x' ∷ t))) (true, env) ≡ (true, env)
unfolding unit_line trim_start
e_line t env =
    ap (λ l. unit_line (trim l) (true, env))
      (drop_cr-cons b'E' (b'x' ∷ t) refl ∙ ap (λ l. b'E' ∷ l) (drop_cr-cons b'x' t refl))
    ∙ ap (λ l. unit_line l (true, env))
        (trim_end-cons b'E' (b'x' ∷ drop_cr t) (unfold is_whitespace in refl)
          ∙ ap (λ l. b'E' ∷ l) (trim_end-cons b'x' (drop_cr t) (unfold is_whitespace in refl)))

-- The two kinds of lines behind the environment, with their line feed.
w_line_reads :
    (t rest : Text) (env : Map Text)
    → Lacks is_newline t
    → unit_lines (lines (b'W' ∷ t ++ newline ∷ rest)) (true, env)
      ≡ unit_lines (lines rest) (true, env)
w_line_reads t rest env h = first_line (b'W' ∷ t) rest _ _ (refl, h) (w_line t env)

e_line_reads :
    (t rest : Text) (env : Map Text)
    → Lacks is_newline t
    → unit_lines (lines (b'E' ∷ b'x' ∷ t ++ newline ∷ rest)) (true, env)
      ≡ unit_lines (lines rest) (true, env)
e_line_reads t rest env h = first_line (b'E' ∷ b'x' ∷ t) rest _ _ (refl, (refl, h)) (e_line t env)

working_directory-reads :
    (dir : Option Text) (rest : Text) (env : Map Text)
    → LacksAll is_newline refl dir
    → unit_lines (lines (working_directory dir ++ rest)) (true, env)
      ≡ unit_lines (lines rest) (true, env)
working_directory-reads none rest env h = refl
working_directory-reads (some dir) rest env h =
    ap (λ t. unit_lines (lines t) (true, env)) (simp append_assoc)
    ∙ w_line_reads (codes "orkingDirectory=" ++ dir) rest env (
        Lacks-append is_newline (codes "orkingDirectory=") dir
          (lacks_sound is_newline (codes "orkingDirectory=") refl) h)

-- The texts of a launch line hold no line feed.
pub record IsLaunch (bin model_path host flags : Text) : Type 0 where
  pub bin_line : Lacks is_newline bin
  pub path_line : Lacks is_newline model_path
  pub host_line : Lacks is_newline host
  pub flags_line : Lacks is_newline flags

-- The launch line behind `Ex`.
abbrev launch_tail : Text → Text → Text → Text → ℕ → Text
launch_tail bin flags model_path host port =
    codes "ecStart=stdbuf -oL -eL \""
    ++ (bin
        ++ (codes "\" -m \""
            ++ (model_path
                ++ (codes "\" --host "
                    ++ (host ++ (codes " --port " ++ (show port ++ (codes " " ++ flags))))))))

launch_tail-Lacks :
    (bin flags model_path host : Text) (port : ℕ)
    → IsLaunch bin model_path host flags
    → Lacks is_newline (launch_tail bin flags model_path host port)
launch_tail-Lacks bin flags model_path host port h =
    Lacks-append is_newline (codes "ecStart=stdbuf -oL -eL \"") _
      (lacks_sound is_newline (codes "ecStart=stdbuf -oL -eL \"") refl)
      (join_lines bin _ h.bin_line (
        join_lines (codes "\" -m \"") _ (lacks_sound is_newline (codes "\" -m \"") refl) (
          join_lines model_path _ h.path_line (
            join_lines (codes "\" --host ") _ (lacks_sound is_newline (codes "\" --host ") refl) (
              join_lines host _ h.host_line (
                join_lines (codes " --port ") _ (lacks_sound is_newline (codes " --port ") refl) (
                  join_lines (show port) _ (show-Lacks port)
                    (join_lines (codes " ") flags (refl, tt) h.flags_line))))))))
  where
    join_lines : (s t : Text) → Lacks is_newline s → Lacks is_newline t → Lacks is_newline (s ++ t)
    join_lines s t = Lacks-append is_newline s t

-- The launch line as it is written.
abbrev launch_line : Text → Text → Text → Text → ℕ → Text
launch_line bin flags model_path host port =
    codes "ExecStart=stdbuf -oL -eL \""
    ++ (bin
        ++ (codes "\" -m \""
            ++ (model_path
                ++ (codes "\" --host "
                    ++ (host
                        ++ (codes " --port "
                            ++ (show port ++ (codes " " ++ (flags ++ codes "\n")))))))))

launch_line_lem :
    (bin flags model_path host : Text) (port : ℕ)
    → launch_line bin flags model_path host port
      ≡ b'E' ∷ b'x' ∷ launch_tail bin flags model_path host port ++ newline ∷ []
launch_line_lem bin flags model_path host port = simp append_assoc

exec_lines-reads :
    (bin flags model_path host : Text) (port : ℕ) (env : Map Text)
    → IsLaunch bin model_path host flags
    → unit_lines (lines (exec_lines bin flags model_path host port)) (true, env) ≡ (true, env)
unfolding exec_lines
exec_lines-reads bin flags model_path host port env h =
    working_directory-reads (parent model_path) _ env
      (parent-Lacks is_newline refl model_path h.path_line)
    ∙ first_line (codes "ExecStart=") _ _ _ (lacks_sound is_newline (codes "ExecStart=") refl)
        (e_line (codes "ecStart=") env)
    ∙ ap (λ t. unit_lines (lines t) (true, env)) (launch_line_lem bin flags model_path host port)
    ∙ e_line_reads (launch_tail bin flags model_path host port) [] env
        (launch_tail-Lacks bin flags model_path host port h)
    ∙ (unfold unit_lines lines in refl)

-- The first line of a drop-in, without its line feed.
abbrev marker_text : Text
marker_text = codes "# AUTO-GENERATED by llmtune [model-select]. Per-arch launch. Do not edit."

-- Where the base environment is a sorted map; each merged variable has a name that is not empty and
-- holds no blank, no quote and no `=`, and a value that holds no quote, single or double, and no
-- line feed; and the binary, the path of the model, the host and the flags hold no line feed: the
-- environment that is read back from the drop-in is exactly the merged environment.
pub parse-render :
    (profile : Profile) (bin : Text) (ld : Option Text) (flags model_path host : Text) (port : ℕ)
    (base : Map Text)
    → IsMap base
    → All IsEntry (merged_env base ld profile.env)
    → IsLaunch bin model_path host flags
    → parse_unit_env (render_dropin profile bin ld flags model_path host port base)
      ≡ merged_env base ld profile.env
unfolding parse_unit_env render_dropin
parse-render profile bin ld flags model_path host port base is_map entries launch =
    let m : Map Text = merged_env base ld profile.env in
    let tail : Text = exec_lines bin flags model_path host port in
    let body : Text = env_lines m ++ tail in
    ap (λ s. s.1)
      (first_line marker_text (codes "[Service]\nEnvironment=\n" ++ body) (false, []) (false, [])
          (lacks_sound is_newline marker_text refl) (unfold unit_line trim drop_cr in refl)
        ∙ first_line (codes "[Service]") (codes "Environment=\n" ++ body) (false, []) (true, [])
            (lacks_sound is_newline (codes "[Service]") refl)
            (unfold unit_line trim drop_cr in refl)
        ∙ first_line (codes "Environment=") body (true, []) (true, [])
            (lacks_sound is_newline (codes "Environment=") refl)
            (unfold unit_line trim drop_cr in refl)
        ∙ env_lines-reads m tail [] entries
        ∙ exec_lines-reads bin flags model_path host port (overlay [] m) launch)
    ∙ overlay-append [] m tt (merged_env-IsMap base ld profile.env is_map)
