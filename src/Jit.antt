-- ===== src/Jit.antt =====
-- pm/jit.h, pm/jit.c: the cache of compiled blocks and their run. The code buffer is allocated; the
-- processor that runs a block's code is a parameter.
pub mod Emit
pub mod Compile
pub mod Execute
pub mod Bounds
pub mod Cache
pub mod Lookup
pub mod Stuck
pub mod Program
use pocol_vm.Prelude.{
  ℕ, zero, suc, ◌+◌, ◌-◌, ◌*◌, Bool, true, false, ◌&&◌, ◌||◌, Option, none, some, List, [], ◌∷◌,
  ◌++◌, length, leb, ltb, if◌then◌else◌,
}
use pocol_vm.Prelude.Int.{ℤ, pos, negsuc}
use pocol_vm.Machine.{memory_size, Memory}
use pocol_vm.Host.{Host}
use pocol_vm.State.{Err, err_ok, Vm, Run, done, exits, fault, Cmd, on_option}
use pocol_vm.Vm.{execute_inst}
use pocol_vm.Vm.Loop.{less, is_zero}
use pocol_vm.Optimizer.{OptLevel, opt_basic}
use pocol_vm.Jit.Emit.{rax, mov_reg_imm64, ret}
use pocol_vm.Jit.Compile.{Layout, Code, emit, compile_loop}

pub data JitMode : Type 0 where
  jit_disabled jit_enabled jit_trace : JitMode

-- `JitCacheEntry`: `code` is the bytes at the entry's code pointer.
pub record JitCacheEntry : Type 0 where
  pub start_pc : ℕ
  pub end_pc : ℕ
  pub code : List ℕ
  pub code_size : ℕ
  pub hits : ℕ
  pub compiled : Bool

abbrev pub jit_cache_size : ℕ
jit_cache_size = 256

-- `JitContext`. `cache` is the used prefix of the array, so that `cache_count` is its length;
-- `code_buffer` is an address.
pub record JitContext : Type 0 where
  pub mode : JitMode
  pub opt_level : OptLevel
  pub cache : List JitCacheEntry
  pub code_buffer : ℕ
  pub buffer_size : ℕ
  pub buffer_used : ℕ
  pub compile_count : ℕ
  pub execute_count : ℕ

-- `pocol_jit_init`, with the address that `mmap` returns.
unfoldable pub jit_init : ℕ → JitMode → OptLevel → JitContext
jit_init buffer mode level = record {
  mode = mode;
  opt_level = level;
  cache = [];
  code_buffer = buffer;
  buffer_size = 1024 * 1024;
  buffer_used = 0;
  compile_count = 0;
  execute_count = 0;
}

-- `pc >= start_pc && pc <= end_pc`
abbrev pub covers : ℕ → JitCacheEntry → Bool
covers pc e = leb e.start_pc pc && leb pc e.end_pc

-- The index of the first entry that covers `pc`, counted from `i`.
unfoldable pub find_from : ℕ → ℕ → List JitCacheEntry → Option ℕ
find_from pc i [] = none
find_from pc i (e ∷ es) = let rest = find_from pc (i + 1) es in if covers pc e then some i else rest

-- `pocol_jit_find_cache`
abbrev pub find_cache : JitContext → ℕ → Option ℕ
find_cache ctx pc = find_from pc 0 ctx.cache

-- The entry at an index.
abbrev pub entry_at : List JitCacheEntry → ℕ → Option JitCacheEntry
entry_at [] i = none
entry_at (e ∷ es) zero = some e
entry_at (e ∷ es) (suc i) = entry_at es i

abbrev pub hit_at : List JitCacheEntry → ℕ → List JitCacheEntry
hit_at [] i = []
hit_at (e ∷ es) zero = record e { hits = e.hits + 1 } ∷ es
hit_at (e ∷ es) (suc i) = e ∷ hit_at es i

abbrev pub new_entry : (start_pc end_pc : ℕ) → List ℕ → JitCacheEntry
new_entry start_pc end_pc code = record {
  start_pc = start_pc;
  end_pc = end_pc;
  code = code;
  code_size = length code;
  hits = 0;
  compiled = true;
}

-- The new entry, and the counts.
abbrev pub add_entry : (start_pc end_pc : ℕ) → List ℕ → JitContext → JitContext
add_entry start_pc end_pc code ctx = record ctx {
  cache = ctx.cache ++ (new_entry start_pc end_pc code ∷ []);
  buffer_used = ctx.buffer_used + length code;
  compile_count = ctx.compile_count + 1;
}

-- Where the block is written, and how much of the buffer is left from there.
abbrev pub block_start : JitContext → ℕ
block_start ctx = ctx.code_buffer + ctx.buffer_used

abbrev pub block_room : JitContext → ℕ
block_room ctx = ctx.buffer_size - ctx.buffer_used

module _ (layout : Layout) (m : Memory) where
  -- The epilogue and the entry.
  abbrev pub close_block : JitContext → ℕ → ℕ → Run Code (Unit {0}) → Run JitContext Err
  close_block ctx start_pc end_pc (done _ c) = done err_ok (add_entry start_pc end_pc c.bytes ctx)
  close_block ctx start_pc end_pc (exits k c) = exits k ctx
  close_block ctx start_pc end_pc fault = fault

  unfoldable pub end_block : JitContext → ℕ → Run Code (Err × ℕ) → Run JitContext Err
  end_block ctx start_pc (done (err_ok, end_pc) c) =
      close_block ctx start_pc end_pc (emit layout m (block_start ctx) (block_room ctx) ret c)
  end_block ctx start_pc (done (e, _) c) = done e ctx
  end_block ctx start_pc (exits k c) = exits k ctx
  end_block ctx start_pc fault = fault

  abbrev pub finished : JitContext → ℕ → Option (Run Code (Err × ℕ)) → Option (Run JitContext Err)
  finished ctx start_pc none = none
  finished ctx start_pc (some r) = some (end_block ctx start_pc r)

  -- The block behind the prologue.
  abbrev pub compile_body : ℕ → JitContext → ℕ → Run Code (Unit {0}) → Option (Run JitContext Err)
  compile_body fuel ctx start_pc (done _ c) =
      finished ctx start_pc
        (compile_loop layout m (block_start ctx) (block_room ctx) fuel start_pc c)
  compile_body fuel ctx start_pc (exits k c) = some (exits k ctx)
  compile_body fuel ctx start_pc fault = some fault

  -- `pocol_jit_compile_block`; `none` when the fuel runs out.
  unfoldable pub compile_block : ℕ → JitContext → ℕ → Option (Run JitContext Err)
  compile_block fuel ctx start_pc =
      if leb jit_cache_size (length ctx.cache)
      then some (done err_ok ctx)
      else compile_body fuel ctx start_pc (
          emit layout m (block_start ctx) (block_room ctx) (mov_reg_imm64 rax layout.vm)
            (record { bytes = []; pc = start_pc }))

-- The machine with its JIT context.
pub record Jitted (W : Type 0) : Type 0 where
  pub ctx : JitContext
  pub vm : Vm W
