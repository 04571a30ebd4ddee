-- ===== src/Jit/Lookup.antt =====
-- pm/jit.c: the invariant of the cache, and what pocol_jit_find_cache finds in it.
use pocol_vm.Prelude.{
  ℕ, zero, suc, ◌+◌, ◌≤◌, ◌<◌, ◌≡◌, refl, ap, true, Option, some, List, [], ◌∷◌, ◌++◌, arith,
  if◌then◌else◌, length, length-append, Bool-cases, inl, inr, le→leb,
}
use mathlib.Core.Path.{subst}
use pocol_vm.Machine.{Memory, memory_size}
use pocol_vm.Jit.Compile.{Layout}
use pocol_vm.State.{Err, Run, Ensures, on_done, on_exits, on_fault}
use pocol_vm.Optimizer.{OptLevel}
use pocol_vm.Jit.{
  JitMode, JitCacheEntry, JitContext, jit_init, jit_cache_size, covers, find_from, find_cache,
  entry_at, hit_at, new_entry, add_entry, compile_block,
}
use pocol_vm.Jit.Cache.{Compiled, full, added, failed, compile_block-Ends}

-- A compiled block: its size is that of its code, and it does not end before it starts.
pub record IsEntry (e : JitCacheEntry) : Type 0 where
  pub size : e.code_size ≡ length e.code
  pub order : e.start_pc ≤ e.end_pc
  pub compiled : e.compiled ≡ true

abbrev pub AllEntries : List JitCacheEntry → Type 0
AllEntries [] = Unit
AllEntries (e ∷ es) = IsEntry e × AllEntries es

unfoldable pub total_size : List JitCacheEntry → ℕ
total_size [] = 0
total_size (e ∷ es) = e.code_size + total_size es

-- The array and the buffer are not exceeded, and the blocks fill the used part of the buffer exactly.
pub record IsCache (ctx : JitContext) : Type 0 where
  pub count : length ctx.cache ≤ jit_cache_size
  pub entries : AllEntries ctx.cache
  pub used : ctx.buffer_used ≡ total_size ctx.cache
  pub room : ctx.buffer_used ≤ ctx.buffer_size

total_size-last :
    (es : List JitCacheEntry) (e : JitCacheEntry)
    → total_size (es ++ (e ∷ [])) ≡ total_size es + e.code_size
unfolding total_size
total_size-last [] e = omega arith
total_size-last (x ∷ es) e = omega (arith, total_size-last es e)

AllEntries-last :
    (es : List JitCacheEntry) (e : JitCacheEntry)
    → AllEntries es
    → IsEntry e
    → AllEntries (es ++ (e ∷ []))
AllEntries-last [] e all is = (is, tt)
AllEntries-last (x ∷ es) e (is_x, all) is = (is_x, AllEntries-last es e all is)

pub jit_init-IsCache :
    (buffer : ℕ) (mode : JitMode) (level : OptLevel) → IsCache (jit_init buffer mode level)
unfolding jit_init total_size
jit_init-IsCache buffer mode level = record {
  count = omega arith;
  entries = tt;
  used = refl;
  room = omega arith;
}

-- A new context satisfies the invariant, and every compilation of a block keeps it, whichever way it
-- returns: at most 256 entries, code within the buffer, and sizes that add up to the used part.
pub Compiled-IsCache :
    {ctx ctx' : JitContext} {start_pc : ℕ} {e : Err}
    → Compiled ctx start_pc e ctx'
    → IsCache ctx
    → IsCache ctx'
Compiled-IsCache (full _) is = is
Compiled-IsCache (failed _) is = is
Compiled-IsCache {ctx} {start_pc} (added end_pc code free order fits) is =
    let entry = new_entry start_pc end_pc code in
    record {
      count = omega (arith, free, length-append ctx.cache (entry ∷ []));
      entries =
          AllEntries-last ctx.cache entry is.entries
            (record { size = refl; order = order; compiled = refl });
      used = omega (arith, is.used, total_size-last ctx.cache entry);
      room = omega (arith, is.room, fits);
    }

-- The entry that a lookup finds covers the address.
pub find_from-covers :
    (pc i k : ℕ) (es : List JitCacheEntry)
    → find_from pc i es ≡ some k
    → (j : ℕ) × ((k ≡ i + j)
        × ((e : JitCacheEntry) × ((entry_at es j ≡ some e) × (covers pc e ≡ true))))
unfolding find_from
find_from-covers pc i k [] h = absurd (ground (arith, h))
find_from-covers pc i k (e ∷ es) h = elim (Bool-cases (covers pc e)) [
  | inl here ↦ (0, (ground (arith, h, here), (e, (refl, here))))
  | inr further ↦
      let (j, (at, found)) = find_from-covers pc (i + 1) k es (ground (arith, h, further)) in
      (suc j, (omega (arith, at), found))
]

-- A lookup finds something as soon as the last entry covers the address.
find_from-last :
    (pc i : ℕ) (es : List JitCacheEntry) (e : JitCacheEntry)
    → covers pc e ≡ true
    → (k : ℕ) × (find_from pc i (es ++ (e ∷ [])) ≡ some k)
unfolding find_from
find_from-last pc i [] e h = (i, simp h refl)
find_from-last pc i (x ∷ es) e h = elim (Bool-cases (covers pc x)) [
  | inl here ↦ (i, simp here refl)
  | inr further ↦
      let (k, found) = find_from-last pc (i + 1) es e h in (k, simp (further, found) refl)
]

-- A hit changes no lookup.
pub find_from-hit_at :
    (pc i j : ℕ) (es : List JitCacheEntry) → find_from pc i (hit_at es j) ≡ find_from pc i es
unfolding find_from
find_from-hit_at pc i j [] = refl
find_from-hit_at pc i zero (e ∷ es) = refl
find_from-hit_at pc i (suc j) (e ∷ es) =
    ap (λ (o : Option ℕ). if covers pc e then some i else o) (find_from-hit_at pc (i + 1) j es)

-- After a block has been compiled and the cache was not full, the lookup at every address from the
-- block's start to its `end_pc`, the latter included, finds an entry that covers it. `end_pc` is
-- where the next block starts, or where HALT stands: that lookup answers with this block, or an
-- earlier one, and the code there is never compiled.
pub find_cache-add_entry :
    (ctx : JitContext) (start_pc end_pc pc : ℕ) (code : List ℕ)
    → start_pc ≤ pc
    → pc ≤ end_pc
    → (k : ℕ) × ((find_cache (add_entry start_pc end_pc code ctx) pc ≡ some k)
        × ((e : JitCacheEntry) × ((entry_at (add_entry start_pc end_pc code ctx).cache k ≡ some e)
              × (covers pc e ≡ true))))
find_cache-add_entry ctx start_pc end_pc pc code low high =
    let entry = new_entry start_pc end_pc code in
    let (k, found) =
      find_from-last pc 0 ctx.cache entry
        (simp (le→leb start_pc pc low, le→leb pc end_pc high) refl) in
    let (j, (at, (e, (there, here)))) = find_from-covers pc 0 k (ctx.cache ++ (entry ∷ [])) found in
    let same : j ≡ k = omega (arith, at) in
    (
      k,
      (found, (e, (subst (λ n. entry_at (ctx.cache ++ (entry ∷ [])) n ≡ some e) same there, here))),
    )

Ensures-IsCache :
    {ctx : JitContext} {start_pc : ℕ} {r : Run JitContext Err}
    → IsCache ctx
    → Ensures (Compiled ctx start_pc) r
    → Ensures (λ _ ctx'. IsCache ctx') r
Ensures-IsCache is (on_done c) = on_done (Compiled-IsCache c is)
Ensures-IsCache is on_exits = on_exits
Ensures-IsCache is on_fault = on_fault

-- Given fuel above the bytes of memory from the block's start on, the compilation of a block comes to
-- an end, and whenever it returns, with or without an error, the cache is as it has to be: at most 256
-- entries whose code lies within the buffer and fills its used part, none of which ends before it
-- starts.
pub compile_block-IsCache :
    (layout : Layout) (m : Memory) (ctx : JitContext) (start_pc fuel : ℕ)
    → IsCache ctx
    → memory_size < start_pc + fuel
    → 0 < fuel
    → (r : Run JitContext Err) × ((compile_block layout m fuel ctx start_pc ≡ some r)
        × Ensures (λ _ ctx'. IsCache ctx') r)
compile_block-IsCache layout m ctx start_pc fuel is room some_fuel =
    let (r, (e, ends)) = compile_block-Ends layout m ctx start_pc fuel room some_fuel in
    (r, (e, Ensures-IsCache is ends))
