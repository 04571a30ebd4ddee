-- ===== src/Optimizer/Levels.antt =====
-- pm/optimizer.c, pocol_optimize_bytecode at each level.
use pocol_vm.Prelude.{ℕ, suc, ◌-◌, ◌<◌, ◌≡◌, ◌≢◌, refl, false, Option, none, some, arith, inr}
use pocol_vm.Machine.{Memory, memory_size}
use pocol_vm.State.{
  Err, err_ok, illegal_inst, illegal_inst_access, stack_overflow, stack_underflow, Run, done, exits,
  fault,
}
use pocol_vm.Vm.{inst_halt}
use pocol_vm.Optimizer.{
  in_code, fold_loop, dead_loop, peephole_loop, OptLevel, opt_none, opt_basic, opt_advanced,
  then_pass, optimize_bytecode,
}
use pocol_vm.Optimizer.Fold.{EndsUnchanged, fold_loop-EndsUnchanged, copy_halt-same}
use pocol_vm.Optimizer.Diverge.{NotOk, Round, dead_loop-NotOk}

-- A pass that ends without a change, before passes that do not succeed on the same memory.
then_pass-NotOk :
    (m : Memory) (o : Option (Run Memory Err)) (k : Memory → Option (Run Memory Err))
    → EndsUnchanged m o
    → NotOk (k m)
    → NotOk (then_pass o k)
then_pass-NotOk m o k (done err_ok m', e, same) h = rw (e, same) h
then_pass-NotOk m o k (done illegal_inst m', e, same) h = rw e (λ m'' q. cc)
then_pass-NotOk m o k (done illegal_inst_access m', e, same) h = rw e (λ m'' q. cc)
then_pass-NotOk m o k (done stack_overflow m', e, same) h = rw e (λ m'' q. cc)
then_pass-NotOk m o k (done stack_underflow m', e, same) h = rw e (λ m'' q. cc)
then_pass-NotOk m o k (exits c m', e, u) h = absurd u
then_pass-NotOk m o k (fault, e, u) h = rw e (λ m'' q. cc)

-- A pass that does not succeed, before others.
stuck-NotOk :
    (o : Option (Run Memory Err)) (k : Memory → Option (Run Memory Err))
    → NotOk o
    → NotOk (then_pass o k)
stuck-NotOk none k h = λ m q. cc
stuck-NotOk (some (done err_ok m')) k h = absurd (h m' refl)
stuck-NotOk (some (done illegal_inst m')) k h = λ m q. cc
stuck-NotOk (some (done illegal_inst_access m')) k h = λ m q. cc
stuck-NotOk (some (done stack_overflow m')) k h = λ m q. cc
stuck-NotOk (some (done stack_underflow m')) k h = λ m q. cc
stuck-NotOk (some (exits c m')) k h = λ m q. cc
stuck-NotOk (some fault) k h = λ m q. cc

module _ (p : ℕ) (m : Memory) (in_memory : p < memory_size) where
  -- Where the code starts inside the memory with an instruction other than HALT, no level that
  -- optimises returns ERR_OK, with any fuel above the number of bytes from there to the end: not the
  -- basic one, which running with the JIT asks for, nor the advanced one.
  pub optimize_bytecode-NotOk :
      (fuel : ℕ) (level : OptLevel)
      → memory_size - p < fuel
      → m p ≢ inst_halt
      → level ≢ opt_none
      → NotOk (optimize_bytecode fuel p level m)
  unfolding optimize_bytecode
  optimize_bytecode-NotOk fuel opt_none enough ne level = absurd (level refl)
  optimize_bytecode-NotOk fuel opt_basic enough ne level =
      then_pass-NotOk m (fold_loop fuel p p m) _ (fold_loop-EndsUnchanged fuel p m enough)
        (stuck-NotOk (dead_loop fuel p p m) _ (dead_loop-NotOk fuel p p m round))
    where
      round : Round p p m
      round = record { in_memory = in_memory; running = ne; order = inr refl }
  optimize_bytecode-NotOk fuel opt_advanced enough ne level =
      then_pass-NotOk m (fold_loop fuel p p m) _ (fold_loop-EndsUnchanged fuel p m enough)
        (stuck-NotOk (dead_loop fuel p p m) _ (dead_loop-NotOk fuel p p m round))
    where
      round : Round p p m
      round = record { in_memory = in_memory; running = ne; order = inr refl }

  -- Where it starts with HALT, every level returns ERR_OK at once and changes no byte.
  pub optimize_bytecode-halt :
      (fuel : ℕ) (level : OptLevel)
      → m p ≡ inst_halt
      → optimize_bytecode (suc fuel) p level m ≡ some (done err_ok m)
  unfolding optimize_bytecode fold_loop dead_loop peephole_loop
  optimize_bytecode-halt fuel level h = go level
    where
      stops : in_code m p ≡ false
      stops = ground arith

      go : (level : OptLevel) → optimize_bytecode (suc fuel) p level m ≡ some (done err_ok m)
      go opt_none = refl
      go opt_basic = rw (stops, copy_halt-same m p, stops, copy_halt-same m p)
      go opt_advanced =
          rw (stops, copy_halt-same m p, stops, copy_halt-same m p, stops, copy_halt-same m p)
