-- ===== src/Cluster/Started.antt =====
-- src/cluster.rs: what the first two steps of `up` have started and stopped.
use llmtune.Prelude.{
  ℕ, ◌≡◌, ◌∙◌, refl, sym, ap, Bool, true, false, List, [], ◌∷◌, ◌++◌, append_assoc, append-nil,
  Outcome, ok, err, Text,
}
use llmtune.Config.{Node}
use llmtune.Swap.Seams.{Clock, SwapOpts}
use llmtune.Swap.Contract.{poll_from_keeps}
use llmtune.Cluster.Up.{
  WorkerCtl, Console, teardown, warn_all, teardown_warn, poll_accept, start_workers, after_start,
  after_accept, accept_workers,
}
use llmtune.Cluster.Tally.{
  Tally, if_started, stopped, tally_workers, tally_console, tally_clock, counts,
}

module _ {W : Type 0} (workers_ctl : WorkerCtl W) (consoles : Console W) (clocks : Clock W) where
  abbrev pub wctl : WorkerCtl (Tally W)
  wctl = tally_workers workers_ctl

  abbrev pub console : Console (Tally W)
  console = tally_console consoles

  abbrev pub clock : Clock (Tally W)
  clock = tally_clock clocks

  counts-teardown :
      (nodes : List Node) (port : ℕ) (s : Tally W)
      → counts (teardown wctl console clock nodes port s).1 ≡ (s.1, s.2 ++ nodes)
  unfolding teardown
  counts-teardown [] port s = ap (λ l. (s.1, l)) (sym (append-nil s.2))
  counts-teardown (n ∷ nodes) port s =
      counts-teardown nodes port (stopped n s (workers_ctl.stop n port s.0)).1
      ∙ ap (λ l. (s.1, l)) (append_assoc s.2 (n ∷ []) nodes)

  counts-warn :
      (port : ℕ) (failed : List (Text × Text)) (s : Tally W)
      → counts (warn_all wctl console clock port failed s) ≡ counts s
  unfolding warn_all
  counts-warn port [] s = refl
  counts-warn port (f ∷ failed) s = counts-warn port failed _

  counts-teardown_warn :
      (nodes : List Node) (port : ℕ) (s : Tally W)
      → counts (teardown_warn wctl console clock nodes port s) ≡ (s.1, s.2 ++ nodes)
  unfolding teardown_warn
  counts-teardown_warn nodes port s =
      counts-warn port (teardown wctl console clock nodes port s).0
        (teardown wctl console clock nodes port s).1
      ∙ counts-teardown nodes port s

  -- All started, none stopped; or the same ones started and stopped.
  abbrev pub Started : List Node → Outcome (Unit {0}) × Tally W → Type 0
  Started nodes (ok x, s) = counts s ≡ (nodes, [])
  Started nodes (err e, s) = s.2 ≡ s.1

  ended-eq : (s : Tally W) (a b : List Node) → counts s ≡ (a, b) → b ≡ a → s.2 ≡ s.1
  ended-eq s a b e h = ap (λ c. c.1) e ∙ h ∙ sym (ap (λ c. c.0) e)

  -- A teardown of all that started leaves as many stopped.
  pub torn_down :
      (nodes : List Node) (port : ℕ) (s : Tally W)
      → counts s ≡ (nodes, [])
      → let t = teardown_warn wctl console clock nodes port s in t.2 ≡ t.1
  torn_down nodes port s e =
      ended-eq (teardown_warn wctl console clock nodes port s) nodes nodes
        (counts-teardown_warn nodes port s ∙ ap (λ c. (c.0, c.1 ++ nodes)) e) refl

  module _ (port : ℕ) (rpc_bin bind : Text) where
    after_start-Started :
        (before : List Node) (n : Node) (rest : Tally W → Outcome (Unit {0}) × Tally W)
        (nodes : List Node)
        → ((s : Tally W) → counts s ≡ (before ++ n ∷ [], []) → Started nodes (rest s))
        → (s : Tally W) → counts s ≡ (before, [])
        → (r : Outcome (Unit {0}) × W)
        → Started nodes
            (after_start wctl console clock port rpc_bin bind before n rest (if_started n s r))
    after_start-Started before n rest nodes h s e (ok x, w) = h _ (ap (λ c. (c.0 ++ n ∷ [], c.1)) e)
    after_start-Started before n rest nodes h s e (err m, w) = torn_down before port _ e

    pub start_workers-Started :
        (before nodes all : List Node)
        → before ++ nodes ≡ all
        → (s : Tally W) → counts s ≡ (before, [])
        → Started all (start_workers wctl console clock port rpc_bin bind before nodes s)
    unfolding start_workers
    start_workers-Started before [] all a s e = e ∙ ap (λ l. (l, [])) (sym (append-nil before) ∙ a)
    start_workers-Started before (n ∷ nodes) all a s e =
        after_start-Started before n _ all
          (start_workers-Started (before ++ n ∷ []) nodes all
            (append_assoc before (n ∷ []) nodes ∙ a))
          s e (workers_ctl.start n port rpc_bin bind s.0)

  module _ (workers : List Node) (port : ℕ) (opts : SwapOpts) where
    after_accept-Started :
        (n : Node) (rest : Tally W → Outcome (Unit {0}) × Tally W)
        → ((s : Tally W) → counts s ≡ (workers, []) → Started workers (rest s))
        → (r : Bool × Tally W) → counts r.1 ≡ (workers, [])
        → Started workers (after_accept wctl console clock workers port opts n rest r)
    after_accept-Started n rest h (true, s) e = h s e
    after_accept-Started n rest h (false, s) e = torn_down workers port s e

    pub counts-poll_accept :
        (n : Node) (s : Tally W)
        → counts (poll_accept wctl console clock n port opts s).1 ≡ counts s
    unfolding poll_accept
    counts-poll_accept n s =
        poll_from_keeps clock (wctl.accepting n port) counts (λ t. refl) (λ d t. refl)
          opts.health_attempts opts.health_interval 0 opts.health_attempts s

    pub accept_workers-Started :
        (nodes : List Node) (s : Tally W)
        → counts s ≡ (workers, [])
        → Started workers (accept_workers wctl console clock workers port opts nodes s)
    unfolding accept_workers
    accept_workers-Started [] s e = e
    accept_workers-Started (n ∷ nodes) s e =
        after_accept-Started n _ (accept_workers-Started nodes)
          (poll_accept wctl console clock n port opts s) (counts-poll_accept n s ∙ e)
