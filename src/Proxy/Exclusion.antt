-- ===== src/Proxy/Exclusion.antt =====
-- src/proxy.rs: the gate's promise to its workers, over all interleavings of their calls.
use llmtune.Prelude.{
  ℕ, suc, ◌+◌, ◌-◌, ◌≤◌, ltb, ◌≡◌, ◌∙◌, refl, sym, ap, true, false, none, some, List, [], ◌∷◌,
  if◌then◌else◌, arith, Bool-cases, inl, inr,
}
use llmtune.Proxy.Gate.{
  GateDecision, proceed, busy, hold_for, GateState, gate_decision, new_gate, begin_swap,
  finish_swap, is_proceed, hold_decision, elapsed, as_secs,
}
use Prim.Native.Nat.{max}

pub data Event : Type 0 where
  began : ℕ → Event
  ended : ℕ → Event

-- The gate, the time, and what has happened, the latest first.
pub record Shared : Type 0 where
  pub gate : GateState
  pub now : ℕ
  pub log : List Event

abbrev log_begin : GateDecision → ℕ → List Event → List Event
log_begin proceed t log = began t ∷ log
log_begin busy t log = log
log_begin (hold_for secs) t log = log

-- A worker's call of `begin_swap`.
unfoldable pub request : ℕ → Shared → Shared
unfolding begin_swap
request hold s =
    let (d, gate) = begin_swap hold s.now s.gate in
    record { gate = gate; now = s.now; log = log_begin d s.now s.log }

-- A worker's call of `finish_swap`.
unfoldable pub release : Shared → Shared
unfolding finish_swap
release s = record { gate = finish_swap s.now s.gate; now = s.now; log = ended s.now ∷ s.log }

-- The workers that were let through and have not finished.
abbrev pub inside : List Event → ℕ
inside [] = 0
inside (began t ∷ log) = suc (inside log)
inside (ended t ∷ log) = inside log - 1

abbrev pub start : Shared
start = record { gate = new_gate; now = 0; log = [] }

-- Steps of any number of workers, in any order: only a worker that was let through finishes.
pub data Reachable (hold : ℕ) : Shared → Type 0 where
  at_start : Reachable hold start
  waited : (s : Shared) (d : ℕ) → Reachable hold s → Reachable hold (record s { now = s.now + d })
  requested : (s : Shared) → Reachable hold s → Reachable hold (request hold s)
  released : (s : Shared) → 1 ≤ inside s.log → Reachable hold s → Reachable hold (release s)

-- Swaps begin and end in turn, and each begins at least `hold` after the end of the one before.
abbrev pub IsSpaced : ℕ → List Event → Type 0
IsSpaced hold [] = Unit
IsSpaced hold (began t ∷ []) = Unit
IsSpaced hold (began t ∷ ended u ∷ log) = (u + hold ≤ t) × IsSpaced hold (ended u ∷ log)
IsSpaced hold (began t ∷ began u ∷ log) = ⊥
IsSpaced hold (ended t ∷ began u ∷ log) = (u ≤ t) × IsSpaced hold (began u ∷ log)
IsSpaced hold (ended t ∷ []) = ⊥
IsSpaced hold (ended t ∷ ended u ∷ log) = ⊥

-- The gate says what the log says last, at a time that is not later than now.
Fits : GateState → ℕ → List Event → Type 0
Fits g now [] = (g.swapping ≡ false) × (g.last_swap_done ≡ none)
Fits g now (began t ∷ log) = (g.swapping ≡ true) × (t ≤ now)
Fits g now (ended t ∷ log) = (g.swapping ≡ false) × (g.last_swap_done ≡ some t) × (t ≤ now)

Sound : ℕ → Shared → Type 0
Sound hold s = IsSpaced hold s.log × Fits s.gate s.now s.log

waited-Fits : (g : GateState) (now d : ℕ) (log : List Event) → Fits g now log → Fits g (now + d) log
unfolding Fits
waited-Fits g now d [] h = h
waited-Fits g now d (began t ∷ log) (s, h) = (s, omega arith)
waited-Fits g now d (ended t ∷ log) (s, e, h) = (s, e, omega arith)

-- `request` with the gate's decision given.
abbrev decided : Shared → GateDecision → Shared
decided s d = record {
  gate = if is_proceed d then record s.gate { swapping = true } else s.gate;
  now = s.now;
  log = log_begin d s.now s.log;
}

not_held :
    (hold now u : ℕ) → u ≤ now → hold_decision (some (now - u)) hold ≡ proceed → u + hold ≤ now
not_held hold now u h e = elim (Bool-cases (ltb (now - u) hold)) [
  | inl early ↦ cc (early_held hold (now - u) early)
  | inr late ↦ ground arith
]
  where
    early_held :
        (hold e : ℕ)
        → ltb e hold ≡ true
        → hold_decision (some e) hold ≡ hold_for (max (as_secs (hold - e)) 1)
    early_held hold e h = rw h

open_decision :
    (hold now u : ℕ) (g : GateState)
    → g.swapping ≡ false
    → g.last_swap_done ≡ some u
    → gate_decision g.swapping (elapsed now g.last_swap_done) hold
      ≡ hold_decision (some (now - u)) hold
unfolding gate_decision
open_decision hold now u g off last = rw (off, last)

shut_decision :
    (hold now : ℕ) (g : GateState)
    → g.swapping ≡ true
    → gate_decision g.swapping (elapsed now g.last_swap_done) hold ≡ busy
unfolding gate_decision
shut_decision hold now g on = rw on

-- A worker is let through only where no swap runs and the hold is over.
proceeds-IsSpaced :
    (hold : ℕ) (s : Shared)
    → Sound hold s
    → gate_decision s.gate.swapping (elapsed s.now s.gate.last_swap_done) hold ≡ proceed
    → IsSpaced hold (began s.now ∷ s.log)
unfolding Sound Fits
proceeds-IsSpaced hold s (spaced, fits) e = go s.gate s.now s.log spaced fits e
  where
    go :
        (g : GateState) (now : ℕ) (log : List Event)
        → IsSpaced hold log
        → Fits g now log
        → gate_decision g.swapping (elapsed now g.last_swap_done) hold ≡ proceed
        → IsSpaced hold (began now ∷ log)
    go g now [] spaced fits e = tt
    go g now (began t ∷ log) spaced (on, h) e = cc (shut_decision hold now g on)
    go g now (ended u ∷ log) spaced (off, last, h) e =
        (not_held hold now u h (sym (open_decision hold now u g off last) ∙ e), spaced)

decided-Sound :
    (hold : ℕ) (s : Shared) (d : GateDecision)
    → Sound hold s
    → gate_decision s.gate.swapping (elapsed s.now s.gate.last_swap_done) hold ≡ d
    → Sound hold (decided s d)
unfolding Sound Fits
decided-Sound hold s proceed h e = (proceeds-IsSpaced hold s h e, (refl, omega arith))
decided-Sound hold s busy h e = h
decided-Sound hold s (hold_for secs) h e = h

-- How many are inside, by the last event.
inside_of : List Event → ℕ
inside_of [] = 0
inside_of (began t ∷ log) = 1
inside_of (ended t ∷ log) = 0

inside-IsSpaced : (hold : ℕ) (log : List Event) → IsSpaced hold log → inside log ≡ inside_of log
unfolding inside_of
inside-IsSpaced hold [] h = refl
inside-IsSpaced hold (began t ∷ []) h = refl
inside-IsSpaced hold (began t ∷ began u ∷ log) h = elim h [ ]
inside-IsSpaced hold (began t ∷ ended u ∷ log) (g, h) =
    ap suc (inside-IsSpaced hold (ended u ∷ log) h)
inside-IsSpaced hold (ended t ∷ []) h = elim h [ ]
inside-IsSpaced hold (ended t ∷ began u ∷ log) (g, h) =
    ap (λ n. n - 1) (inside-IsSpaced hold (began u ∷ log) h)
inside-IsSpaced hold (ended t ∷ ended u ∷ log) h = elim h [ ]

inside_of-most : (log : List Event) → inside_of log ≤ 1
unfolding inside_of
inside_of-most [] = omega arith
inside_of-most (began t ∷ log) = omega arith
inside_of-most (ended t ∷ log) = omega arith

none_inside :
    (hold t : ℕ) (log : List Event) → IsSpaced hold (ended t ∷ log) → 1 ≤ inside (ended t ∷ log) → ⊥
unfolding inside_of
none_inside hold t log h n =
    let e : inside (ended t ∷ log) ≡ 0 = inside-IsSpaced hold (ended t ∷ log) h in omega arith

released-Sound : (hold : ℕ) (s : Shared) → 1 ≤ inside s.log → Sound hold s → Sound hold (release s)
unfolding Sound Fits release
released-Sound hold s n (spaced, fits) = go s.gate s.now s.log n spaced fits
  where
    go :
        (g : GateState) (now : ℕ) (log : List Event)
        → 1 ≤ inside log
        → IsSpaced hold log
        → Fits g now log
        → IsSpaced hold (ended now ∷ log) × ((false ≡ false) × (some now ≡ some now) × (now ≤ now))
    go g now [] n spaced fits = elim (bottom n) [ ]
      where
        bottom : 1 ≤ 0 → ⊥
        bottom h = omega arith
    go g now (began t ∷ log) n spaced (on, h) = ((h, spaced), (refl, refl, omega arith))
    go g now (ended t ∷ log) n spaced fits = elim (none_inside hold t log spaced n) [ ]

Reachable-Sound : (hold : ℕ) (s : Shared) → Reachable hold s → Sound hold s
unfolding Sound Fits request
Reachable-Sound hold s at_start = (tt, (refl, refl))
Reachable-Sound hold s (waited t d r) =
    let (spaced, fits) = Reachable-Sound hold t r in (spaced, waited-Fits t.gate t.now d t.log fits)
Reachable-Sound hold s (requested t r) = decided-Sound hold t _ (Reachable-Sound hold t r) refl
Reachable-Sound hold s (released t n r) = released-Sound hold t n (Reachable-Sound hold t r)

-- Whatever the order in which any number of workers call the gate, and however long they take, if
-- only workers that were let through finish a swap: their swaps begin and end in turn, so that no two run at once, and each begins at least the hold
-- after the end of the one before.
pub gate_exclusive :
    (hold : ℕ) (s : Shared) → Reachable hold s → (inside s.log ≤ 1) × IsSpaced hold s.log
unfolding Sound
gate_exclusive hold s r =
    let (spaced, fits) = Reachable-Sound hold s r in
    let e = inside-IsSpaced hold s.log spaced in
    let m = inside_of-most s.log in (omega arith, spaced)
