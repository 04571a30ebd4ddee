-- ===== src/Jit/Stuck.antt =====
-- pm/jit.c, pocol_jit_execute_program at a HALT instruction.
use pocol_vm.Prelude.{
  ℕ, zero, suc, ◌+◌, ◌≤◌, ◌<◌, ◌≡◌, refl, ap, ◌∙◌, true, false, Option, none, some, List, [], ◌∷◌,
  ◌++◌, arith, length, length-append, Bool-cases, inl, inr, le→leb, lt→leb_false,
}
use pocol_vm.Prelude.Int.{negsuc}
use pocol_vm.Machine.{Memory, memory_size}
use pocol_vm.Host.{Host}
use pocol_vm.State.{err_ok, Vm, done, Cmd}
use pocol_vm.Vm.{inst_halt}
use pocol_vm.Jit.Emit.{rax, mov_reg_imm64, ret}
use pocol_vm.Jit.Compile.{Layout, Code, emit, compile_loop}
use pocol_vm.Jit.{
  JitCacheEntry, JitContext, jit_cache_size, covers, find_from, find_cache, entry_at, hit_at,
  new_entry, add_entry, block_start, block_room, end_block, compile_block,
}
use pocol_vm.Jit.Execute.{Jitted, execute_block, jit_loop, hit}
use pocol_vm.Jit.Lookup.{find_from-hit_at}

-- The code of a block without instructions: RAX takes the machine's address, and RET.
abbrev pub empty_block : Layout → List ℕ
empty_block layout = mov_reg_imm64 rax layout.vm ++ ret

-- A running machine whose program counter a block without instructions covers.
pub record Stuck {W : Type 0} (layout : Layout) (s : Jitted W) (i : ℕ) (e : JitCacheEntry)
    : Type 0 where
  pub live : s.vm.halt ≡ false
  pub found : find_cache s.ctx s.vm.pc ≡ some i
  pub entry : entry_at s.ctx.cache i ≡ some e
  pub compiled : e.compiled ≡ true
  pub code : e.code ≡ empty_block layout

bump : Option JitCacheEntry → Option JitCacheEntry
bump none = none
bump (some e) = some (record e { hits = e.hits + 1 })

entry_at-hit_at :
    (es : List JitCacheEntry) (i : ℕ) (e : JitCacheEntry)
    → entry_at es i ≡ some e
    → entry_at (hit_at es i) i ≡ some (record e { hits = e.hits + 1 })
unfolding bump
entry_at-hit_at [] i e h = absurd (ground (arith, h))
entry_at-hit_at (x ∷ es) zero e h = ap bump h
entry_at-hit_at (x ∷ es) (suc i) e h = entry_at-hit_at es i e h

module _ {W : Type 0} (host : Host W) (layout : Layout) (run_code : List ℕ → Cmd (Vm W) (Unit {0}))
    (keeps : (vm : Vm W) → run_code (empty_block layout) vm ≡ done tt vm) where
  execute_block-Stuck :
      (fuel i : ℕ) (s : Jitted W) (e : JitCacheEntry)
      → Stuck layout s i e
      → execute_block host layout run_code fuel s
        ≡ some (done err_ok (record s { ctx = hit host layout run_code i s.ctx }))
  unfolding execute_block
  execute_block-Stuck fuel i s e stuck =
      simp (stuck.found, stuck.entry, stuck.compiled, stuck.code, keeps s.vm) refl

  Stuck-hit :
      (i : ℕ) (s : Jitted W) (e : JitCacheEntry)
      → Stuck layout s i e
      → Stuck layout
          (record s { ctx = hit host layout run_code i s.ctx })
          i
          (record e { hits = e.hits + 1 })
  Stuck-hit i s e stuck = record {
    live = stuck.live;
    found = find_from-hit_at s.vm.pc 0 i s.ctx.cache ∙ stuck.found;
    entry = entry_at-hit_at s.ctx.cache i e stuck.entry;
    compiled = stuck.compiled;
    code = stuck.code;
  }

  -- Without a limit the loop goes round for ever.
  jit_loop-Stuck :
      (rounds fuel k i : ℕ) (s : Jitted W) (e : JitCacheEntry)
      → Stuck layout s i e
      → jit_loop host layout run_code rounds fuel (negsuc k) s ≡ none
  unfolding jit_loop
  jit_loop-Stuck zero fuel k i s e stuck = refl
  jit_loop-Stuck (suc n) fuel k i s e stuck =
      simp (stuck.live, execute_block-Stuck fuel i s e stuck)
        (jit_loop-Stuck n fuel k i _ _ (Stuck-hit i s e stuck))

  find_from-fresh :
      (pc i : ℕ) (es : List JitCacheEntry) (e : JitCacheEntry)
      → find_from pc i es ≡ none
      → covers pc e ≡ true
      → find_from pc i (es ++ (e ∷ [])) ≡ some (i + length es)
  unfolding find_from
  find_from-fresh pc i [] e h c = let z : i ≡ i + 0 = omega arith in simp c (ap some z)
  find_from-fresh pc i (x ∷ es) e h c = elim (Bool-cases (covers pc x)) [
    | inl here ↦ absurd (ground (arith, h, here))
    | inr further ↦
        let z : i + 1 + length es ≡ i + suc (length es) = omega arith in
        simp further (find_from-fresh pc (i + 1) es e (ground (arith, h, further)) c ∙ ap some z)
  ]

  entry_at-last :
      (es : List JitCacheEntry) (e : JitCacheEntry) → entry_at (es ++ (e ∷ [])) (length es) ≡ some e
  entry_at-last [] e = refl
  entry_at-last (x ∷ es) e = entry_at-last es e

  emit-fits :
      (m : Memory) (start room : ℕ) (bs : List ℕ) (c : Code)
      → length c.bytes + length bs ≤ room
      → emit layout m start room bs c ≡ done tt (record c { bytes = c.bytes ++ bs })
  unfolding emit
  emit-fits m start room bs c fits = simp (le→leb (length c.bytes + length bs) room fits) refl

  compile_loop-halt :
      (m : Memory) (start room f end_pc : ℕ) (c : Code)
      → c.pc < memory_size
      → m c.pc ≡ inst_halt
      → compile_loop layout m start room (suc f) end_pc c ≡ some (done (err_ok, c.pc) c)
  unfolding compile_loop
  compile_loop-halt m start room f end_pc c inside halts =
      simp (lt→leb_false memory_size c.pc inside, halts) refl

  -- At HALT a block without instructions is compiled.
  compile_block-halt :
      (m : Memory) (ctx : JitContext) (pc f : ℕ)
      → pc < memory_size
      → m pc ≡ inst_halt
      → length ctx.cache < jit_cache_size
      → length (empty_block layout) ≤ block_room ctx
      → compile_block layout m (suc f) ctx pc
        ≡ some (done err_ok (add_entry pc pc (empty_block layout) ctx))
  unfolding compile_block end_block
  compile_block-halt m ctx pc f inside halts free room =
      let prologue = mov_reg_imm64 rax layout.vm in
      let sizes = length-append prologue ret in
      let c₀ : Code = record { bytes = []; pc = pc } in
      let c₁ : Code = record { bytes = prologue; pc = pc } in
      simp
        (
          lt→leb_false jit_cache_size (length ctx.cache) free,
          emit-fits m (block_start ctx) (block_room ctx) prologue c₀ (omega (arith, sizes)),
          compile_loop-halt m (block_start ctx) (block_room ctx) f pc c₁ inside halts,
          emit-fits m (block_start ctx) (block_room ctx) ret c₁ (omega (arith, sizes)),
        )
        refl

  -- A running machine at a HALT that no block covers, with room for an entry and for its code.
  pub record AtHalt (s : Jitted W) : Type 0 where
    pub live : s.vm.halt ≡ false
    pub inside : s.vm.pc < memory_size
    pub halts : s.vm.memory s.vm.pc ≡ inst_halt
    pub uncached : find_cache s.ctx s.vm.pc ≡ none
    pub free : length s.ctx.cache < jit_cache_size
    pub room : length (empty_block layout) ≤ block_room s.ctx

  abbrev compiled_at : Jitted W → Jitted W
  compiled_at s = record s { ctx = add_entry s.vm.pc s.vm.pc (empty_block layout) s.ctx }

  abbrev halt_entry : Jitted W → JitCacheEntry
  halt_entry s = new_entry s.vm.pc s.vm.pc (empty_block layout)

  compiled_at-Stuck :
      (s : Jitted W) → AtHalt s → Stuck layout (compiled_at s) (length s.ctx.cache) (halt_entry s)
  compiled_at-Stuck s h =
      let z : 0 + length s.ctx.cache ≡ length s.ctx.cache = omega arith in
      let here = le→leb s.vm.pc s.vm.pc (omega arith) in
      record {
        live = h.live;
        found =
            find_from-fresh s.vm.pc 0 s.ctx.cache (halt_entry s) h.uncached (simp here refl)
            ∙ ap some z;
        entry = entry_at-last s.ctx.cache (halt_entry s);
        compiled = refl;
        code = refl;
      }

  execute_block-AtHalt :
      (fuel : ℕ) (s : Jitted W)
      → AtHalt s
      → execute_block host layout run_code (suc fuel) s
        ≡ some (
            done err_ok (record s {
              ctx = hit host layout run_code (length s.ctx.cache) (compiled_at s).ctx;
            }))
  unfolding execute_block
  execute_block-AtHalt fuel s h =
      let stuck = compiled_at-Stuck s h in
      let compile =
        compile_block-halt s.vm.memory s.ctx s.vm.pc fuel h.inside h.halts h.free h.room in
      simp (h.uncached, compile, stuck.found, stuck.entry, keeps s.vm) refl

  -- With a processor on which the prologue and the epilogue of a block change nothing of the machine,
  -- the JIT never stops at HALT: from a running machine at a HALT that is not in the cache yet, with
  -- room for a block, the loop without a limit does not return, whatever the number of rounds.
  pub jit_loop-halt :
      (rounds fuel k : ℕ) (s : Jitted W)
      → AtHalt s
      → jit_loop host layout run_code rounds (suc fuel) (negsuc k) s ≡ none
  unfolding jit_loop
  jit_loop-halt zero fuel k s h = refl
  jit_loop-halt (suc n) fuel k s h =
      simp (h.live, execute_block-AtHalt fuel s h)
        (jit_loop-Stuck n (suc fuel) k (length s.ctx.cache) _ _
          (Stuck-hit (length s.ctx.cache) (compiled_at s) (halt_entry s) (compiled_at-Stuck s h)))
