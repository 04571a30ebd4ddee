-- ===== src/Jit/Cache.antt =====
-- pm/jit.c: what pocol_jit_compile_block makes of the cache, and the lookups that follow.
use pocol_vm.Prelude.{
  ℕ, ◌+◌, ◌≤◌, ◌<◌, ◌≡◌, ◌≢◌, inl, inr, refl, ap, Option, some, List, [], arith, leb, length,
  Bool-cases, leb→le,
}
use pocol_vm.Machine.{Memory, memory_size}
use pocol_vm.State.{
  Err, err_ok, illegal_inst, illegal_inst_access, stack_overflow, stack_underflow, Run, done, exits,
  fault, Ensures, on_done, on_exits, on_fault,
}
use pocol_vm.Jit.Emit.{rax, mov_reg_imm64, ret}
use pocol_vm.Jit.Compile.{Layout, Code}
use pocol_vm.Jit.{
  JitContext, jit_cache_size, add_entry, block_start, block_room, close_block, end_block, finished,
  compile_body, compile_block,
}
use pocol_vm.Jit.Bounds.{emit-Keeps, compile_loop-LoopEnds}

-- How a compilation of a block may end: with a full cache, with a new entry whose code fits the rest
-- of the buffer, or with an error; but for the new entry the context is as it was.
pub data Compiled (ctx : JitContext) (start_pc : ℕ) : Err → JitContext → Type 0 where
  full : jit_cache_size ≤ length ctx.cache → Compiled ctx start_pc err_ok ctx
  added :
      (end_pc : ℕ) (code : List ℕ)
      → length ctx.cache < jit_cache_size
      → start_pc ≤ end_pc
      → length code ≤ block_room ctx
      → Compiled ctx start_pc err_ok (add_entry start_pc end_pc code ctx)
  failed : {e : Err} → e ≢ err_ok → Compiled ctx start_pc e ctx

module _ (layout : Layout) (m : Memory) (ctx : JitContext) (start_pc : ℕ) where
  abbrev CodeFits : Code → Type 0
  CodeFits c = length c.bytes ≤ block_room ctx

  close_block-Compiled :
      (end_pc : ℕ) (r : Run Code (Unit {0}))
      → length ctx.cache < jit_cache_size
      → start_pc ≤ end_pc
      → Ensures (λ _ c. (0 ≤ c.pc) × CodeFits c) r
      → Ensures (Compiled ctx start_pc) (close_block layout m ctx start_pc end_pc r)
  close_block-Compiled end_pc (done _ c) free le (on_done p) =
      on_done (added end_pc c.bytes free le p.1)
  close_block-Compiled end_pc (exits k c) free le p = on_exits
  close_block-Compiled end_pc fault free le p = on_fault

  end_block-Compiled :
      (r : Run Code (Err × ℕ))
      → length ctx.cache < jit_cache_size
      → Ensures (λ v c. (start_pc ≤ v.1) × CodeFits c) r
      → Ensures (Compiled ctx start_pc) (end_block layout m ctx start_pc r)
  unfolding end_block
  end_block-Compiled (done (err_ok, end_pc) c) free (on_done p) =
      close_block-Compiled end_pc _ free p.0
        (emit-Keeps layout m (block_start ctx) (block_room ctx) 0 ret c (omega arith, p.1))
  end_block-Compiled (done (illegal_inst, _) c) free p = on_done (failed (λ e. ground (arith, e)))
  end_block-Compiled (done (illegal_inst_access, _) c) free p =
      on_done (failed (λ e. ground (arith, e)))
  end_block-Compiled (done (stack_overflow, _) c) free p = on_done (failed (λ e. ground (arith, e)))
  end_block-Compiled (done (stack_underflow, _) c) free p =
      on_done (failed (λ e. ground (arith, e)))
  end_block-Compiled (exits k c) free p = on_exits
  end_block-Compiled fault free p = on_fault

  abbrev pub Ends : Option (Run JitContext Err) → Type 0
  Ends o = (r : Run JitContext Err) × ((o ≡ some r) × Ensures (Compiled ctx start_pc) r)

  compile_body-Ends :
      (fuel : ℕ) (r : Run Code (Unit {0}))
      → length ctx.cache < jit_cache_size
      → memory_size < start_pc + fuel
      → 0 < fuel
      → Ensures (λ _ c. (start_pc ≤ c.pc) × CodeFits c) r
      → Ends (compile_body layout m fuel ctx start_pc r)
  compile_body-Ends fuel (done _ c) free room some_fuel (on_done p) =
      let (r, (e, ends)) =
        compile_loop-LoopEnds layout m (block_start ctx) (block_room ctx) fuel start_pc start_pc c
          (omega arith) p.0 p.1 (omega (arith, p.0)) some_fuel in
      (
        end_block layout m ctx start_pc r,
        (ap (finished layout m ctx start_pc) e, end_block-Compiled r free ends),
      )
  compile_body-Ends fuel (exits k c) free room some_fuel p = (exits k ctx, (refl, on_exits))
  compile_body-Ends fuel fault free room some_fuel p = (fault, (refl, on_fault))

  -- Given fuel above the bytes of memory from the block's start on, the compilation ends: by a fault,
  -- or as `Compiled` says.
  pub compile_block-Ends :
      (fuel : ℕ)
      → memory_size < start_pc + fuel
      → 0 < fuel
      → Ends (compile_block layout m fuel ctx start_pc)
  unfolding compile_block
  compile_block-Ends fuel room some_fuel =
      elim (Bool-cases (leb jit_cache_size (length ctx.cache))) [
        | inl is_full ↦ simp is_full (_, (refl, on_done (full (leb→le _ _ is_full))))
        | inr free ↦ simp free (
            compile_body-Ends fuel _ (ground (arith, free)) room some_fuel (
              emit-Keeps layout m (block_start ctx) (block_room ctx) start_pc
                (mov_reg_imm64 rax layout.vm) (record { bytes = []; pc = start_pc })
                (omega arith, omega arith)))
      ]
