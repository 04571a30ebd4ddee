-- ===== src/Debugger/Stops.antt =====
-- pm/vm_debugger.c, debugger_should_stop: where it stops, and how stepping counts.
use pocol_vm.Prelude.{
  ℕ, zero, suc, ◌≡◌, ◌≢◌, ◌⊎◌, refl, ap, ◌∙◌, Bool, true, false, ◌&&◌, none, List, [], ◌∷◌, arith,
  length, Bool-cases, Option-cases, inl, inr, ◌==◌,
}
use pocol_vm.Prelude.Int.{ℤ, pos}
use pocol_vm.Debugger.{mode_run, mode_step_in, mode_break, BreakPoint, Debugger}
use pocol_vm.Debugger.Control.{
  minus_one, not_positive, hit, count_step, stop_by_mode, should_stop, step_into,
}

-- An enabled breakpoint stands at the address.
abbrev pub Armed : ℕ → List BreakPoint → Type 0
Armed pc [] = ⊥
Armed pc (b ∷ bs) = ((b.enabled ≡ true) × (b.address ≡ pc)) ⊎ Armed pc bs

-- A hit is found exactly where an enabled breakpoint stands.
hit-Armed : (pc : ℕ) (bs : List BreakPoint) → Armed pc bs → hit pc bs ≢ none
unfolding hit
hit-Armed pc [] armed = absurd armed
hit-Armed pc (b ∷ bs) (inl (e, a)) = ground arith
hit-Armed pc (b ∷ bs) (inr later) = ground (arith, hit-Armed pc bs later)

Armed-hit : (pc : ℕ) (bs : List BreakPoint) → hit pc bs ≢ none → Armed pc bs
unfolding hit
Armed-hit pc [] h = absurd (h refl)
Armed-hit pc (b ∷ bs) h = elim (Bool-cases (b.enabled && (b.address == pc))) [
  | inl here ↦ inl (ground arith)
  | inr past ↦ inr (Armed-hit pc bs (ground arith))
]

module _ (d : Debugger) (on : d.initialized ≡ true) (running : d.running ≡ true) where
  -- An initialised debugger that is running, asked by debugger_should_stop on a machine that has not
  -- halted, stops at an enabled breakpoint, in the break mode; at no such breakpoint, and in the run
  -- mode, it answers no with nothing changed.
  pub should_stop-Armed :
      (pc : ℕ)
      → (Armed pc d.breakpoints
          → ((should_stop pc false d).0 ≡ true) × ((should_stop pc false d).1.mode ≡ mode_break))
        × (¬ (Armed pc d.breakpoints) → d.mode ≡ mode_run → should_stop pc false d ≡ (false, d))
  unfolding should_stop stop_by_mode
  should_stop-Armed pc = elim (Option-cases (hit pc d.breakpoints)) [
    | inl no_hit ↦ (
      (λ armed. absurd (hit-Armed pc d.breakpoints armed no_hit)),
      λ _ run. simp (on, running, no_hit, run),
    )
    | inr (bs, some_hit) ↦ (
      (λ armed. simp (on, running, some_hit) (refl, refl)),
      λ no run. absurd (no (Armed-hit pc d.breakpoints (λ q. cc))),
    )
  ]

-- What debugger_should_stop answers at one program counter after another.
unfoldable pub poll : List ℕ → Debugger → List Bool
poll [] d = []
poll (pc ∷ pcs) d = (should_stop pc false d).0 ∷ poll pcs (should_stop pc false d).1

abbrev pub Clear : List BreakPoint → List ℕ → Type 0
Clear bs [] = Unit
Clear bs (pc ∷ pcs) = (¬ (Armed pc bs)) × Clear bs pcs

-- `n` times no, and then yes.
abbrev pub stops_last : ℕ → List Bool
stops_last zero = true ∷ []
stops_last (suc n) = false ∷ stops_last n

-- The answer while steps are counted, away from breakpoints.
should_stop-count :
    (d : Debugger) (pc : ℕ)
    → d.initialized ≡ true
    → d.running ≡ true
    → d.mode ≡ mode_step_in
    → ¬ (Armed pc d.breakpoints)
    → should_stop pc false d ≡ count_step d
unfolding should_stop stop_by_mode
should_stop-count d pc on running mode clear = elim (Option-cases (hit pc d.breakpoints)) [
  | inl no_hit ↦ simp (on, running, no_hit, mode)
  | inr (bs, some_hit) ↦ absurd (clear (Armed-hit pc d.breakpoints (λ q. cc)))
]

poll-count :
    (n : ℕ) (pcs : List ℕ) (d : Debugger)
    → length pcs ≡ suc n
    → d.initialized ≡ true
    → d.running ≡ true
    → d.mode ≡ mode_step_in
    → d.steps_remaining ≡ pos (suc n)
    → Clear d.breakpoints pcs
    → poll pcs d ≡ stops_last n
unfolding poll count_step minus_one not_positive
poll-count n [] d len on running mode steps clear = absurd (omega arith)
poll-count zero (pc ∷ []) d len on running mode steps (clear, _) =
    simp (should_stop-count d pc on running mode clear, steps)
poll-count zero (pc ∷ pc' ∷ pcs) d len on running mode steps clear = absurd (omega arith)
poll-count (suc n) (pc ∷ pcs) d len on running mode steps (clear, rest) =
    simp (should_stop-count d pc on running mode clear, steps)
      (ap (λ l. false ∷ l)
        (poll-count n pcs (record d { steps_remaining = pos (suc n) }) (omega arith) on running mode
          refl rest))

step_into-on :
    (d : Debugger) (c : ℤ)
    → d.initialized ≡ true
    → step_into d c ≡ record d { mode = mode_step_in; running = true; steps_remaining = c }
unfolding step_into
step_into-on d c on = ground arith

-- An initialised debugger is told to step `n + 1` times, and debugger_should_stop is then asked as many
-- times on a machine that has not halted, each time at a program counter without an enabled
-- breakpoint: it answers no `n` times, and then yes. So a step of one stops at the first question, and
-- one of more than that after one question less than it is asked for.
pub poll-step_into :
    (n : ℕ) (pcs : List ℕ) (d : Debugger)
    → d.initialized ≡ true
    → length pcs ≡ suc n
    → Clear d.breakpoints pcs
    → poll pcs (step_into d (pos (suc n))) ≡ stops_last n
poll-step_into n pcs d on len clear =
    ap (poll pcs) (step_into-on d (pos (suc n)) on)
    ∙ poll-count n pcs
        (record d { mode = mode_step_in; running = true; steps_remaining = pos (suc n) }) len on
        refl refl refl clear
