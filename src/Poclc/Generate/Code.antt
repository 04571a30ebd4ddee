-- ===== src/Poclc/Generate/Code.antt =====
-- poclc/poclc.c, gen_expr: the instructions that the code of an expression consists of.
use pocol_vm.Prelude.{
  ℕ, ◌≡◌, refl, sym, ap, ◌∙◌, List, [], ◌∷◌, ◌++◌, append_assoc, if◌then◌else◌, sext64, minus_one64,
  str_eq, Bool-cases, inl, inr,
}
use pocol_vm.Machine.{desc_pack, emit64}
use pocol_vm.Prelude.Text.{codes}
use pocol_vm.Vm.Isa.{reg, imm, Inst, push, add, jmp, print, encode}
use pocol_vm.Poclc.Ast.{
  Ast, Nodes, null, func_decl, var_decl, assign, if_stmt, while_stmt, for_stmt, return_stmt,
  print_stmt, binary_expr, unary_expr, call_expr, ident_expr, number_expr, string_expr, block,
  no_nodes, node,
}
use pocol_vm.Poclc.Generate.{gen_expr, gen_first}

unfoldable pub encode_all : List Inst → List ℕ
encode_all [] = []
encode_all (i ∷ is) = encode i ++ encode_all is

-- What an expression is compiled to: a number is pushed; an identifier jumps to the address in r0;
-- whatever the operator, two operands are followed by r0 += r1.
unfoldable mutual
  pub expr_insts : Ast → List Inst
  expr_insts (number_expr n) = push (imm (sext64 n)) ∷ []
  expr_insts (ident_expr _) = jmp (reg 0) ∷ []
  expr_insts (binary_expr _ l r) = expr_insts l ++ (expr_insts r ++ (add 0 (reg 1) ∷ []))
  expr_insts (unary_expr op l) =
      let code = expr_insts l ++ (push (imm minus_one64) ∷ add 0 (reg 1) ∷ []) in
      if str_eq op (codes "-") then code else []
  expr_insts (call_expr name args) =
      let code = first_insts args ++ (print (reg 0) ∷ []) in
      if str_eq name (codes "print") then code else []
  expr_insts _ = []

  pub first_insts : Nodes → List Inst
  first_insts no_nodes = []
  first_insts (node n _) = expr_insts n

encode_all-append : (is js : List Inst) → encode_all (is ++ js) ≡ encode_all is ++ encode_all js
unfolding encode_all
encode_all-append [] js = refl
encode_all-append (i ∷ is) js =
    ap (λ (t : List ℕ). encode i ++ t) (encode_all-append is js)
    ∙ sym (append_assoc (encode i) (encode_all is) (encode_all js))

mutual
  unfolding gen_expr expr_insts encode_all encode desc_pack emit64

  gen_expr-insts : (e : Ast) → gen_expr e ≡ encode_all (expr_insts e)
  gen_expr-insts null = refl
  gen_expr-insts (func_decl _ _ _) = refl
  gen_expr-insts (var_decl _ _) = refl
  gen_expr-insts (assign _ _) = refl
  gen_expr-insts (if_stmt _ _ _) = refl
  gen_expr-insts (while_stmt _ _) = refl
  gen_expr-insts (for_stmt _ _ _) = refl
  gen_expr-insts (return_stmt _) = refl
  gen_expr-insts (print_stmt _) = refl
  gen_expr-insts (binary_expr _ l r) =
      simp (gen_expr-insts l, gen_expr-insts r, encode_all-append) refl
  gen_expr-insts (unary_expr op l) = elim (Bool-cases (str_eq op (codes "-"))) [
    | inl minus ↦ simp (minus, gen_expr-insts l, encode_all-append) refl
    | inr other ↦ simp other refl
  ]
  gen_expr-insts (call_expr name args) = elim (Bool-cases (str_eq name (codes "print"))) [
    | inl prints ↦ simp (prints, gen_first-insts args, encode_all-append) refl
    | inr other ↦ simp other refl
  ]
  gen_expr-insts (ident_expr _) = refl
  gen_expr-insts (number_expr _) = refl
  gen_expr-insts (string_expr _) = refl
  gen_expr-insts (block _) = refl

  gen_first-insts : (ns : Nodes) → gen_first ns ≡ encode_all (first_insts ns)
  gen_first-insts no_nodes = refl
  gen_first-insts (node n _) = gen_expr-insts n

-- The code that the compiler writes for an expression is what the assembler writes for a sequence of
-- instructions: a number is pushed; an identifier is a jump to the address in r0, not a POP; a binary
-- expression is the code of both operands and ADD r0, r1, whatever the operator; a negation is the
-- code of its operand, a PUSH of the pattern of -1 and ADD r0, r1; a call of print is the code of the
-- first argument and PRINT r0; any other node is no code.
pub gen_expr-encode : (e : Ast) → gen_expr e ≡ encode_all (expr_insts e)
gen_expr-encode e = gen_expr-insts e
