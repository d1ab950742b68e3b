-- ===== src/Cluster/Down.antt =====
-- src/cluster.rs: `down`, and what it reports of the workers.
use llmtune.Prelude.{
  ℕ, ◌≡◌, ◌∙◌, refl, sym, ap, List, [], ◌∷◌, ◌++◌, append_assoc, append-nil, Outcome, ok, err, Text,
  map,
}
use llmtune.Config.{Node}
use llmtune.Swap.Seams.{Clock, and_then}
use llmtune.Swap.Clear.{Shell, remove_all, restart_base, dropins_of, clear_dropin}
use llmtune.Swap.Dropins.{Dropin}
use llmtune.Cluster.Up.{WorkerCtl, Console, teardown, with_failure}

module _ {W : Type 0} (wctl : WorkerCtl W) (console : Console W) (clock : Clock W)
    (shell : Shell W) where
  abbrev pub with_failed :
      List (Text × Text) → Outcome (Unit {0}) × W → Outcome (List (Text × Text)) × W
  with_failed failed (ok x, w) = (ok failed, w)
  with_failed failed (err e, w) = (err e, w)

  unfoldable pub down : Text → List Node → ℕ → W → Outcome (List (Text × Text)) × W
  unfolding teardown clear_dropin
  down head_unit workers port w =
      let (failed, w₁) = teardown wctl console clock workers port w in
      with_failed failed (clear_dropin shell head_unit w₁)

-- A machine with the workers that were told to stop, and what each answered.
abbrev pub Asked : Type 0 → Type 0
Asked W = W × List (Node × Outcome (Unit {0}))

abbrev asked : {W : Type 0} → Node → Asked W → Outcome (Unit {0}) × W → Outcome (Unit {0}) × Asked W
asked n s (r, w) = (r, (w, s.1 ++ (n, r) ∷ []))

abbrev kept : {W A : Type 0} → Asked W → A × W → A × Asked W
kept s (a, w) = (a, (w, s.1))

abbrev pub asked_workers : {W : Type 0} → WorkerCtl W → WorkerCtl (Asked W)
asked_workers c = record {
  start = λ n port bin bind s. kept s (c.start n port bin bind s.0);
  stop = λ n port s. asked n s (c.stop n port s.0);
  accepting = λ n port s. kept s (c.accepting n port s.0);
}

abbrev pub asked_console : {W : Type 0} → Console W → Console (Asked W)
asked_console c = record { eprint = λ t s. (c.eprint t s.0, s.1) }

abbrev pub asked_clock : {W : Type 0} → Clock W → Clock (Asked W)
asked_clock c = record { sleep = λ t s. (c.sleep t s.0, s.1); now = λ s. c.now s.0 }

abbrev pub asked_shell : {W : Type 0} → Shell W → Shell (Asked W)
asked_shell c = record {
  sudo = λ args s. kept s (c.sudo args s.0);
  read_dir = λ s. c.read_dir s.0;
  etc_writable = λ s. c.etc_writable s.0;
}

-- The names and errors of those that did not stop.
abbrev pub failures : List (Node × Outcome (Unit {0})) → List (Text × Text)
failures [] = []
failures ((n, r) ∷ log) = with_failure n.name r (failures log)

-- All workers were told to stop, and a result lists those that failed.
abbrev pub IsDown :
    List Node → Outcome (List (Text × Text)) → List (Node × Outcome (Unit {0})) → Type 0
IsDown workers (ok failed) log = (map (λ e. e.0) log ≡ workers) × (failed ≡ failures log)
IsDown workers (err e) log = map (λ e. e.0) log ≡ workers

module _ {W : Type 0} (workers_ctl : WorkerCtl W) (consoles : Console W) (clocks : Clock W)
    (shells : Shell W) where
  abbrev shell : Shell (Asked W)
  shell = asked_shell shells

  abbrev Tore : List Node → List (Node × Outcome (Unit {0})) → List (Text × Text) × Asked W → Type 0
  Tore nodes before (failed, s) =
      (log : List (Node × Outcome (Unit {0}))) × (s.1 ≡ before ++ log)
      × (map (λ e. e.0) log ≡ nodes)
      × (failed ≡ failures log)

  teardown-Tore :
      (nodes : List Node) (port : ℕ) (s : Asked W)
      → Tore nodes s.1 (
          teardown
            (asked_workers workers_ctl)
            (asked_console consoles)
            (asked_clock clocks)
            nodes
            port
            s)
  unfolding teardown
  teardown-Tore [] port s = ([], sym (append-nil s.1), refl, refl)
  teardown-Tore (n ∷ nodes) port s =
      let r = (workers_ctl.stop n port s.0).0 in
      let (log, e, all, f) = teardown-Tore nodes port (asked n s (workers_ctl.stop n port s.0)).1 in
      (
        (n, r) ∷ log,
        e ∙ append_assoc s.1 ((n, r) ∷ []) log,
        ap (λ l. n ∷ l) all,
        ap (with_failure n.name r) f,
      )

  and_then-keeps :
      (r : Outcome (Unit {0}) × W) (s : Asked W) (k : Asked W → Outcome (Unit {0}) × Asked W)
      → ((t : Asked W) → (k t).1.1 ≡ t.1)
      → (and_then (kept s r) k).1.1 ≡ s.1
  and_then-keeps (ok x, w) s k h = h (w, s.1)
  and_then-keeps (err e, w) s k h = refl

  then_keeps :
      (r : Outcome (Unit {0}) × Asked W) (log : List (Node × Outcome (Unit {0})))
      (k : Asked W → Outcome (Unit {0}) × Asked W)
      → r.1.1 ≡ log
      → ((t : Asked W) → (k t).1.1 ≡ t.1)
      → (and_then r k).1.1 ≡ log
  then_keeps (ok x, s) log k e h = h s ∙ e
  then_keeps (err m, s) log k e h = e

  remove_all_keeps : (ps : List Dropin) (s : Asked W) → (remove_all shell ps s).1.1 ≡ s.1
  unfolding remove_all
  remove_all_keeps [] s = refl
  remove_all_keeps (p ∷ ps) s = and_then-keeps (shells.sudo _ s.0) s _ (remove_all_keeps ps)

  restart_base_keeps : (unit : Text) (s : Asked W) → (restart_base shell unit s).1.1 ≡ s.1
  unfolding restart_base
  restart_base_keeps unit s = and_then-keeps (shells.sudo _ s.0) s _ (λ t. refl)

  clear_dropin_keeps : (unit : Text) (s : Asked W) → (clear_dropin shell unit s).1.1 ≡ s.1
  unfolding clear_dropin
  clear_dropin_keeps unit s =
      then_keeps (remove_all shell (dropins_of shell unit s) s) s.1 _ (remove_all_keeps _ s)
        (restart_base_keeps unit)

  with_failed-IsDown :
      (workers : List Node) (failed : List (Text × Text)) (log : List (Node × Outcome (Unit {0})))
      (r : Outcome (Unit {0}) × Asked W)
      → r.1.1 ≡ log
      → map (λ e. e.0) log ≡ workers
      → failed ≡ failures log
      → let out =
          with_failed
            (asked_workers workers_ctl)
            (asked_console consoles)
            (asked_clock clocks)
            shell
            failed
            r in
        IsDown workers out.0 out.1.1
  with_failed-IsDown workers failed log (ok x, s) e all f =
      (ap (map (λ e. e.0)) e ∙ all, f ∙ ap failures (sym e))
  with_failed-IsDown workers failed log (err m, s) e all f = ap (map (λ e. e.0)) e ∙ all

  -- Whatever the workers and the commands answer: `down` tells every worker to stop, in order, even
  -- where stops fail or the head's drop-ins cannot be cleared; and where it returns, it reports
  -- exactly the workers whose stop failed, with their errors.
  pub down-IsDown :
      (head_unit : Text) (workers : List Node) (port : ℕ) (w : W)
      → let out =
          down
            (asked_workers workers_ctl)
            (asked_console consoles)
            (asked_clock clocks)
            shell
            head_unit
            workers
            port
            (w, []) in
        IsDown workers out.0 out.1.1
  unfolding down
  down-IsDown head_unit workers port w =
      let (log, e, all, f) = teardown-Tore workers port (w, []) in
      with_failed-IsDown workers _ log _ (clear_dropin_keeps head_unit _ ∙ e) all f
