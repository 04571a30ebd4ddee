-- ===== src/Poclc/Generate/Runs.antt =====
-- poclc/poclc.c, gen_expr, against pm/vm.c: what the machine does when it runs the code of an
-- arithmetic expression.
use pocol_vm.Prelude.{
  ℕ, ◌+◌, ◌^◌, ◌<◌, ◌≡◌, refl, sym, ap, List, [], ◌∷◌, ◌++◌, arith, length, length-append, sext64,
  minus_one64,
}
use mathlib.Core.List.{append-nil}
use pocol_vm.Prelude.Text.{codes}
use pocol_vm.Machine.{desc_pack, emit64}
use pocol_vm.Host.{Host}
use pocol_vm.State.{Vm}
use pocol_vm.Vm.Isa.{encode}
use pocol_vm.Poclc.Token.{TokenType}
use pocol_vm.Poclc.Ast.{Ast, binary_expr, unary_expr, number_expr}
use pocol_vm.Poclc.Generate.{gen_expr, push_imm, add_r0_r1}
use pocol_vm.Poclc.Generate.Effect.{
  Leads, Leads-push, Leads-add, Leads-at, Leads-then, Ready, Ready-at,
}

-- Expressions of numbers, negations and binary operators.
pub data Arith : Ast → Type 0 where
  number : {n : ℕ} → n < 2 ^ 32 → Arith (number_expr n)
  binary : {op : TokenType} {l r : Ast} → Arith l → Arith r → Arith (binary_expr op l r)
  minus : {l : Ast} → Arith l → Arith (unary_expr (codes "-") l)

-- The words that the code of an expression pushes, the first one first: its numbers, extended with their
-- sign, and -1 behind the operand of a negation.
unfoldable pub pushes : {e : Ast} → Arith e → List ℕ
pushes (number {n} _) = sext64 n ∷ []
pushes (binary l r) = pushes l ++ pushes r
pushes (minus l) = pushes l ++ minus_one64 ∷ []

-- The operators of an expression.
unfoldable pub adds : {e : Ast} → Arith e → ℕ
adds (number _) = 0
adds (binary l r) = adds l + (adds r + 1)
adds (minus l) = adds l + 1

module _ {W : Type 0} (host : Host W) where
  sext64_lt : (n : ℕ) → n < 2 ^ 32 → sext64 n < 2 ^ 64
  sext64_lt n h = ground arith

  Leads-push_imm :
      (v : ℕ)
      → v < 2 ^ 64
      → (vm : Vm W) → Ready host (push_imm v) (v ∷ []) vm
      → Leads host 1 10 (v ∷ []) 0 vm
  unfolding encode desc_pack emit64
  Leads-push_imm v fits vm r =
      Leads-push host v vm fits r.live (omega (arith, r.room)) (omega (arith, r.inside)) r.code

  Leads-add_r0_r1 : (vm : Vm W) → Ready host add_r0_r1 [] vm → Leads host 1 4 [] 1 vm
  unfolding encode desc_pack
  Leads-add_r0_r1 vm r =
      Leads-add host vm r.live (omega (arith, r.room)) (omega (arith, r.inside)) r.code

  -- The code of an arithmetic expression of 32-bit numbers, run from its first byte by a machine that
  -- has not halted, with the code before the last byte of memory and room for its words on the stack,
  -- pushes its numbers, extended with their sign and in the order of the text, with -1 behind the
  -- operand of each negation, and leaves them all there; r0 grows by r1 once for each operator,
  -- whichever it is; the stack below, the other registers and memory stay as they were. So no operator
  -- ever reads an operand.
  pub gen_expr-Leads :
      {e : Ast} (a : Arith e) (vm : Vm W)
      → Ready host (gen_expr e) (pushes a) vm
      → Leads host (length (pushes a) + adds a) (length (gen_expr e)) (pushes a) (adds a) vm
  unfolding gen_expr pushes adds emit64
  gen_expr-Leads (number {n} h) vm ready = Leads-push_imm (sext64 n) (sext64_lt n h) vm ready
  gen_expr-Leads (binary {l} {r} p q) vm ready =
      let words : pushes p ++ (pushes q ++ []) ≡ pushes p ++ pushes q =
        ap (λ ws. pushes p ++ ws) (append-nil (pushes q)) in
      Leads-at host vm (omega (arith, length-append (pushes p) (pushes q))) refl words (
        Leads-then host (gen_expr l) (gen_expr r ++ add_r0_r1) (pushes p) (pushes q ++ [])
          (length (pushes p) + adds p) (length (pushes q) + adds q + 1) (adds p) (adds q + 1) vm
          (Ready-at host _ _ _ vm (sym words) ready) (gen_expr-Leads p vm)
          (λ u ready'.
            Leads-then host (gen_expr r) add_r0_r1 (pushes q) [] (length (pushes q) + adds q) 1
              (adds q) 1 u ready' (gen_expr-Leads q u) Leads-add_r0_r1))
  gen_expr-Leads (minus {l} p) vm ready =
      Leads-at host vm (omega (arith, length-append (pushes p) (minus_one64 ∷ []))) refl refl (
        Leads-then host (gen_expr l) (push_imm minus_one64 ++ add_r0_r1) (pushes p)
          (minus_one64 ∷ []) (length (pushes p) + adds p) 2 (adds p) 1 vm ready
          (gen_expr-Leads p vm)
          (λ u ready'.
            Leads-then host (push_imm minus_one64) add_r0_r1 (minus_one64 ∷ []) [] 1 1 0 1 u ready'
              (Leads-push_imm minus_one64 (omega arith) u) Leads-add_r0_r1))
