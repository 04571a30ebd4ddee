-- ===== src/Poclc/Generate/Effect.antt =====
-- poclc/poclc.c, gen_expr, against pm/vm.c: what code that pushes words and adds r1 to r0 does to a
-- machine.
use pocol_vm.Prelude.{
  ℕ, zero, suc, ◌+◌, ◌^◌, ◌≤◌, ◌<◌, ◌≡◌, refl, sym, ap, ◌∙◌, false, List, [], ◌∷◌, ◌++◌, arith,
  length, length-append, wrap64, lt→leb_false,
}
use mathlib.Core.Path.{subst}
use pocol_vm.Machine.Stores.{Holds-append, Holds-join, Holds-agree}
use pocol_vm.Machine.{Holds, memory_size, stack_size, reg_op}
use pocol_vm.Host.{Host}
use pocol_vm.State.{Vm}
use pocol_vm.Vm.{set_word}
use pocol_vm.Vm.Isa.{reg, imm, push, add, encode, sem}
use pocol_vm.Vm.Refine.{execute_inst-encode}
use pocol_vm.Vm.Loop.{Steps, stop, step}

-- `n` times `r0 += r1`
unfoldable pub add_times : ℕ → (r1 r0 : ℕ) → ℕ
add_times zero r1 r0 = r0
add_times (suc n) r1 r0 = add_times n r1 (wrap64 (r0 + r1))

-- What stays and what becomes of a machine when `size` bytes of code have pushed the words `ws` and
-- have added r1 to r0 `n` times.
pub record Effect {W : Type 0} (size : ℕ) (ws : List ℕ) (n : ℕ) (vm u : Vm W) : Type 0 where
  pub memory : u.memory ≡ vm.memory
  pub pc : u.pc ≡ vm.pc + size
  pub sp : u.sp ≡ vm.sp + length ws
  pub slots : Holds u.stack vm.sp ws
  pub halt : u.halt ≡ vm.halt
  pub world : u.world ≡ vm.world
  pub below : (i : ℕ) → i < vm.sp → u.stack i ≡ vm.stack i
  pub r0 : u.registers 0 ≡ add_times n (vm.registers 1) (vm.registers 0)
  pub others : (i : ℕ) → 0 < i → u.registers i ≡ vm.registers i

add_times-add : (m n r x : ℕ) → add_times n r (add_times m r x) ≡ add_times (m + n) r x
unfolding add_times
add_times-add zero n r x = let e : n ≡ 0 + n = omega arith in ap (λ (k : ℕ). add_times k r x) e
add_times-add (suc m) n r x =
    let e : suc (m + n) ≡ suc m + n = omega arith in
    add_times-add m n r (wrap64 (x + r)) ∙ ap (λ (k : ℕ). add_times k r x) e

module _ {W : Type 0} (host : Host W) where
  Steps-append :
      {j k n : ℕ} {a b c : Vm W}
      → n ≡ j + k
      → Steps host j a b
      → Steps host k b c
      → Steps host n a c
  Steps-append {k} {n} {a} {c} e stop t =
      let e' : k ≡ n = omega arith in subst (λ m. Steps host m a c) (e') t
  Steps-append {a} {c} e (step h run s) t =
      subst (λ m. Steps host m a c) (omega arith) (step h run (Steps-append refl s t))

  -- `k` instructions lead to a machine with the effect.
  abbrev pub Leads : (k size : ℕ) (ws : List ℕ) (n : ℕ) → Vm W → Type 0
  Leads k size ws n vm = (u : Vm W) × (Steps host k vm u × Effect size ws n vm u)

  Effect-append :
      (s t : ℕ) (vs bs : List ℕ) (m n : ℕ) (x y z : Vm W)
      → Effect s vs m x y
      → Effect t bs n y z
      → Effect (s + t) (vs ++ bs) (m + n) x z
  Effect-append s t vs bs m n x y z p q = record {
    memory = q.memory ∙ p.memory;
    pc = omega (arith, p.pc, q.pc);
    sp = omega (arith, p.sp, q.sp, length-append vs bs);
    slots =
        Holds-join z.stack x.sp vs bs
          (Holds-agree y.stack z.stack x.sp vs (λ i h. q.below i (omega (arith, p.sp, h))) p.slots)
          (subst (λ i. Holds z.stack i bs) p.sp q.slots);
    halt = q.halt ∙ p.halt;
    world = q.world ∙ p.world;
    below = λ i h. q.below i (omega (arith, p.sp)) ∙ p.below i h;
    r0 =
        q.r0
        ∙ (ap (λ r. add_times n r (y.registers 0)) (p.others 1 (omega arith))
            ∙ (ap (add_times n (x.registers 1)) p.r0
                ∙ add_times-add m n (x.registers 1) (x.registers 0)));
    others = λ i h. q.others i h ∙ p.others i h;
  }

  pushed : ℕ → Vm W → Vm W
  pushed v vm = record vm { pc = vm.pc + 2 + 8; stack = set_word vm.stack vm.sp v; sp = vm.sp + 1 }

  Effect-pushed : (v : ℕ) (vm : Vm W) → Effect 10 (v ∷ []) 0 vm (pushed v vm)
  unfolding pushed add_times
  Effect-pushed v vm = record {
    memory = refl;
    pc = omega arith;
    sp = refl;
    slots = (ground arith, tt);
    halt = refl;
    world = refl;
    below = λ i h. ground (arith, h);
    r0 = refl;
    others = λ i h. refl;
  }

  pub Leads-push :
      (v : ℕ) (vm : Vm W)
      → v < 2 ^ 64
      → vm.halt ≡ false
      → vm.sp < stack_size
      → vm.pc + 10 < memory_size
      → Holds vm.memory vm.pc (encode (push (imm v)))
      → Leads 1 10 (v ∷ []) 0 vm
  unfolding sem pushed
  Leads-push v vm fits live room inside code =
      let run = execute_inst-encode host vm (omega arith) (push (imm v)) fits (omega arith) code in
      (
        pushed v vm,
        (step live (run ∙ simp (lt→leb_false stack_size vm.sp room) refl) stop, Effect-pushed v vm),
      )

  added : Vm W → Vm W
  added vm = record vm {
    pc = vm.pc + 3 + 1;
    registers = set_word vm.registers 0 (wrap64 (vm.registers 0 + vm.registers 1));
  }

  Effect-added : (vm : Vm W) → Effect 4 [] 1 vm (added vm)
  unfolding added add_times
  Effect-added vm = record {
    memory = refl;
    pc = omega arith;
    sp = omega arith;
    slots = tt;
    halt = refl;
    world = refl;
    below = λ i h. refl;
    r0 = refl;
    others = λ i h. ground (arith, h);
  }

  pub Leads-add :
      (vm : Vm W)
      → vm.halt ≡ false
      → vm.sp ≤ stack_size
      → vm.pc + 4 < memory_size
      → Holds vm.memory vm.pc (encode (add 0 (reg 1)))
      → Leads 1 4 [] 1 vm
  unfolding sem added reg_op
  Leads-add vm live room inside code =
      let run =
        execute_inst-encode host vm room (add 0 (reg 1)) (omega arith, omega arith) (omega arith)
          code in
      (added vm, (step live run stop, Effect-added vm))

  Leads-append :
      (j k s t : ℕ) (vs bs : List ℕ) (m n : ℕ) (vm : Vm W)
      → (first : Leads j s vs m vm) → Leads k t bs n first.0
      → Leads (j + k) (s + t) (vs ++ bs) (m + n) vm
  Leads-append j k s t vs bs m n vm (u, (p, e)) (v, (q, f)) =
      (v, (Steps-append refl p q, Effect-append s t vs bs m n vm u v e f))

  pub Leads-at :
      (vm : Vm W) {j k s t m : ℕ} {vs bs : List ℕ}
      → j ≡ k
      → s ≡ t
      → vs ≡ bs
      → Leads j s vs m vm
      → Leads k t bs m vm
  Leads-at vm {k} {s} {t} {m} {vs} {bs} ek es ea = λ (l : Leads _ s vs m vm).
      subst (λ x. Leads k t x m vm) ea
        (subst (λ x. Leads k x vs m vm) es (subst (λ x. Leads x s vs m vm) ek l))

  -- The code stands behind what has run.
  Holds-Effect :
      (size : ℕ) (ws : List ℕ) (n : ℕ) (vm u : Vm W) (bs : List ℕ)
      → Effect size ws n vm u
      → Holds vm.memory (vm.pc + size) bs
      → Holds u.memory u.pc bs
  Holds-Effect size ws n vm u bs e h =
      subst (λ m. Holds m u.pc bs) (sym e.memory) (subst (λ k. Holds vm.memory k bs) (sym e.pc) h)

  -- A machine that runs and has room for `size` bytes of code, which stand at its program counter,
  -- and for the words that it pushes.
  pub record Ready (bs ws : List ℕ) (vm : Vm W) : Type 0 where
    pub live : vm.halt ≡ false
    pub room : vm.sp + length ws ≤ stack_size
    pub inside : vm.pc + length bs < memory_size
    pub code : Holds vm.memory vm.pc bs

  Ready-left : (xs ys vs bs : List ℕ) (vm : Vm W) → Ready (xs ++ ys) (vs ++ bs) vm → Ready xs vs vm
  Ready-left xs ys vs bs vm r = record {
    live = r.live;
    room = omega (arith, r.room, length-append vs bs);
    inside = omega (arith, r.inside, length-append xs ys);
    code = (Holds-append vm.memory vm.pc xs ys r.code).0;
  }

  Ready-right :
      (xs ys vs bs : List ℕ) (n : ℕ) (vm u : Vm W)
      → Ready (xs ++ ys) (vs ++ bs) vm
      → Effect (length xs) vs n vm u
      → Ready ys bs u
  Ready-right xs ys vs bs n vm u r e = record {
    live = e.halt ∙ r.live;
    room = omega (arith, r.room, e.sp, length-append vs bs);
    inside = omega (arith, r.inside, e.pc, length-append xs ys);
    code = Holds-Effect (length xs) vs n vm u ys e (Holds-append vm.memory vm.pc xs ys r.code).1;
  }

  pub Ready-at : (cs vs bs : List ℕ) (vm : Vm W) → vs ≡ bs → Ready cs vs vm → Ready cs bs vm
  Ready-at cs vs bs vm e = subst (λ ws. Ready cs ws vm) e

  -- Code that leads on, followed by code that does.
  pub Leads-then :
      (xs ys vs bs : List ℕ) (j k m n : ℕ) (vm : Vm W)
      → Ready (xs ++ ys) (vs ++ bs) vm
      → (Ready xs vs vm → Leads j (length xs) vs m vm)
      → ((u : Vm W) → Ready ys bs u → Leads k (length ys) bs n u)
      → Leads (j + k) (length (xs ++ ys)) (vs ++ bs) (m + n) vm
  Leads-then xs ys vs bs j k m n vm r first second =
      let p = first (Ready-left xs ys vs bs vm r) in
      let q = second p.0 (Ready-right xs ys vs bs m vm p.0 r p.1.1) in
      Leads-at vm refl (sym (length-append xs ys)) refl
        (Leads-append j k (length xs) (length ys) vs bs m n vm p q)
