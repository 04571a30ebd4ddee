-- ===== src/Vm/Loop.antt =====
-- pm/vm.c: the interpreter's loop, which vm.h declares as pocol_execute_program. It stands at the
-- end of pocol_execute_program_jit, behind an `if` whose two branches return.
use pocol_vm.Prelude.{
  ℕ, zero, suc, ◌≤◌, ◌<◌, ◌≡◌, refl, Bool, true, false, ◌||◌, Option, none, some, arith, ltb,
  if◌then◌else◌, Bool-cases, ◌⊎◌, ◌≢◌, inl, inr,
}
use pocol_vm.Prelude.Int.{ℤ, pos, negsuc}
use pocol_vm.Machine.{memory_size}
use pocol_vm.Host.{Host}
use pocol_vm.State.{
  Err, err_ok, illegal_inst, illegal_inst_access, stack_overflow, stack_underflow, Vm, Run, done,
  exits, fault,
}
use pocol_vm.Vm.{execute_inst}

-- `limit == 0`, and `if (limit > 0) --limit`
abbrev pub is_zero : ℤ → Bool
is_zero (pos zero) = true
is_zero (pos (suc n)) = false
is_zero (negsuc n) = false

abbrev pub less : ℤ → ℤ
less (pos zero) = pos zero
less (pos (suc n)) = pos n
less (negsuc n) = negsuc n

module _ {W : Type 0} (host : Host W) where
  -- The message for an error shows the byte at the program counter, which may lie outside.
  abbrev pub report : Err → Vm W → Run (Vm W) Err
  report e vm = if ltb vm.pc memory_size then done e vm else fault

  abbrev pub after : (Vm W → Option (Run (Vm W) Err)) → Run (Vm W) Err → Option (Run (Vm W) Err)
  after again (done err_ok vm) = again vm
  after again (done e vm) = some (report e vm)
  after again (exits c vm) = some (exits c vm)
  after again fault = some fault

  -- `none` when the fuel runs out.
  unfoldable pub execute_loop : ℕ → ℤ → Vm W → Option (Run (Vm W) Err)
  execute_loop zero limit vm = none
  execute_loop (suc f) limit vm =
      let next = after (execute_loop f (less limit)) (execute_inst host vm) in
      if is_zero limit || vm.halt then some (done err_ok vm) else next

  -- A run of at most `n` instructions.
  unfoldable pub execute_program : ℕ → Vm W → Option (Run (Vm W) Err)
  execute_program n = execute_loop (suc n) (pos n)

  -- `k` instructions, each of a machine that has not halted and each without an error.
  pub data Steps : ℕ → Vm W → Vm W → Type 0 where
    stop : {vm : Vm W} → Steps zero vm vm
    step :
        {k : ℕ} {vm u v : Vm W}
        → vm.halt ≡ false
        → execute_inst host vm ≡ done err_ok u
        → Steps k u v
        → Steps (suc k) vm v

  -- How a run of at most `n` instructions may end.
  pub data Ends (n : ℕ) (vm : Vm W) : Run (Vm W) Err → Type 0 where
    finished :
        {k : ℕ} {u : Vm W}
        → Steps k vm u
        → k ≤ n
        → (k ≡ n) ⊎ (u.halt ≡ true)
        → Ends n vm (done err_ok u)
    failed :
        {k : ℕ} {u v : Vm W} {e : Err}
        → Steps k vm u
        → k < n
        → u.halt ≡ false
        → execute_inst host u ≡ done e v
        → e ≢ err_ok
        → Ends n vm (report e v)
    exited :
        {k c : ℕ} {u v : Vm W}
        → Steps k vm u
        → k < n
        → execute_inst host u ≡ exits c v
        → Ends n vm (exits c v)
    faulted :
        {k : ℕ} {u : Vm W} → Steps k vm u → k < n → execute_inst host u ≡ fault → Ends n vm fault

  Ends-step :
      {n : ℕ} {vm u : Vm W} {r : Run (Vm W) Err}
      → vm.halt ≡ false
      → execute_inst host vm ≡ done err_ok u
      → Ends n u r
      → Ends (suc n) vm r
  Ends-step h e (finished s le how) =
      finished (step h e s) (omega arith)
        (elim how [ inl all ↦ inl (omega arith) | inr halted ↦ inr halted ])
  Ends-step h e (failed s lt run err ne) = failed (step h e s) (omega arith) run err ne
  Ends-step h e (exited s lt ex) = exited (step h e s) (omega arith) ex
  Ends-step h e (faulted s lt f) = faulted (step h e s) (omega arith) f

  abbrev Terminates : ℕ → Vm W → Option (Run (Vm W) Err) → Type 0
  Terminates n vm o = (r : Run (Vm W) Err) × (o ≡ some r) × Ends n vm r

  -- What follows the first instruction, by how it ended.
  after-Terminates :
      (n : ℕ) (vm : Vm W) (again : Vm W → Option (Run (Vm W) Err))
      → vm.halt ≡ false
      → ((u : Vm W) → Terminates n u (again u))
      → (r : Run (Vm W) Err) → execute_inst host vm ≡ r
      → Terminates (suc n) vm (after again r)
  after-Terminates n vm again h ih (done err_ok u) e =
      let (r, eq, ends) = ih u in (r, eq, Ends-step h e ends)
  after-Terminates n vm again h ih (done illegal_inst u) e =
      (report illegal_inst u, refl, failed stop (omega arith) h e cc)
  after-Terminates n vm again h ih (done illegal_inst_access u) e =
      (report illegal_inst_access u, refl, failed stop (omega arith) h e cc)
  after-Terminates n vm again h ih (done stack_overflow u) e =
      (report stack_overflow u, refl, failed stop (omega arith) h e cc)
  after-Terminates n vm again h ih (done stack_underflow u) e =
      (report stack_underflow u, refl, failed stop (omega arith) h e cc)
  after-Terminates n vm again h ih (exits c u) e = (exits c u, refl, exited stop (omega arith) e)
  after-Terminates n vm again h ih fault e = (fault, refl, faulted stop (omega arith) e)

  execute_loop-Terminates :
      (f n : ℕ) (vm : Vm W) → n < f → Terminates n vm (execute_loop f (pos n) vm)
  unfolding execute_loop
  execute_loop-Terminates zero n vm h = absurd (omega arith)
  execute_loop-Terminates (suc f) zero vm h =
      (done err_ok vm, refl, finished stop (omega arith) (inl refl))
  execute_loop-Terminates (suc f) (suc n) vm h = elim (Bool-cases vm.halt) [
    | inl halted ↦ (done err_ok vm, simp halted, finished stop (omega arith) (inr halted))
    | inr runs ↦ simp runs (
        after-Terminates n vm (execute_loop f (pos n)) runs
          (λ u. execute_loop-Terminates f n u (omega arith)) (execute_inst host vm) refl)
  ]

  -- With a limit of `n`, the interpreter returns. It has run `n` instructions without an error, or
  -- fewer and the machine has halted, or it stops at the first instruction that returns an error,
  -- exits or faults, which it reaches by fewer than `n` instructions without an error.
  pub execute_program-Ends :
      (n : ℕ) (vm : Vm W) → (r : Run (Vm W) Err) × (execute_program n vm ≡ some r) × Ends n vm r
  unfolding execute_program
  execute_program-Ends n vm = execute_loop-Terminates (suc n) n vm (omega arith)

  -- With a negative limit the interpreter runs on until the machine halts: where `k` instructions
  -- without an error lead to a halted machine, that machine is the result, given fuel above `k`.
  pub execute_loop-unlimited :
      (m f : ℕ) {k : ℕ} {vm u : Vm W}
      → Steps k vm u
      → u.halt ≡ true
      → k < f
      → execute_loop f (negsuc m) vm ≡ some (done err_ok u)
  unfolding execute_loop
  execute_loop-unlimited m zero s h lt = absurd (omega arith)
  execute_loop-unlimited m (suc f) stop h lt = simp h
  execute_loop-unlimited m (suc f) (step runs e s) h lt =
      simp (runs, e) (execute_loop-unlimited m f s h (omega arith))
