-- ===== src/Poclc/Generate.antt =====
-- poclc/poclc.c: the generator. A function gives the bytes that the C function writes. The register
-- table, which no code but its own functions uses, is left out.
pub mod Code
pub mod Effect
pub mod Runs
use pocol_vm.Prelude.{
  ℕ, ◌+◌, ◌*◌, ◌^◌, List, [], ◌∷◌, ◌++◌, if◌then◌else◌, wrap8, sext64, minus_one64, str_eq,
}
use pocol_vm.Prelude.Text.{codes}
use pocol_vm.Machine.{emit64}
use pocol_vm.Poclc.Ast.{
  Ast, Nodes, null, func_decl, var_decl, assign, if_stmt, while_stmt, for_stmt, return_stmt,
  print_stmt, binary_expr, unary_expr, call_expr, ident_expr, number_expr, string_expr, block,
  no_nodes, node,
}

-- POCOL_MAGIC of poclc.c
abbrev pub pocol_magic : ℕ
pocol_magic = 0x706f636f

-- `(op2 << 4) | op1` as a `uint8_t`, for operands of 4 bits
abbrev pub emit_desc : ℕ → ℕ → List ℕ
emit_desc op1 op2 = wrap8 (op2 * 16 + op1) ∷ []

-- PRINT of a register, with the register 0 behind it.
abbrev pub print_r0 : List ℕ
print_r0 = 0x05 ∷ (emit_desc 0x01 0 ++ (0 ∷ []))

-- ADD of two registers, r0 and r1.
abbrev pub add_r0_r1 : List ℕ
add_r0_r1 = 0x03 ∷ (emit_desc 0x01 0x01 ++ (0 ∷ 1 ∷ []))

-- PUSH of an immediate.
abbrev pub push_imm : ℕ → List ℕ
push_imm v = 0x01 ∷ (emit_desc 0x02 0 ++ emit64 v)

unfoldable mutual
  pub gen_expr : Ast → List ℕ
  gen_expr (number_expr n) = push_imm (sext64 n)
  gen_expr (ident_expr _) = 0x04 ∷ (emit_desc 0x01 0 ++ (0 ∷ []))
  gen_expr (binary_expr _ left right) = gen_expr left ++ (gen_expr right ++ add_r0_r1)
  gen_expr (unary_expr op left) =
      let code = gen_expr left ++ (push_imm minus_one64 ++ add_r0_r1) in
      if str_eq op (codes "-") then code else []
  gen_expr (call_expr name children) =
      let code = gen_first children ++ print_r0 in if str_eq name (codes "print") then code else []
  gen_expr _ = []

  -- The code of `children[0]`, if there is one.
  pub gen_first : Nodes → List ℕ
  gen_first no_nodes = []
  gen_first (node n _) = gen_expr n

-- What PRINT adds to its expression, which NULL leaves out.
unfoldable pub gen_print : Ast → List ℕ
unfolding gen_expr
gen_print null = []
gen_print left = gen_expr left ++ print_r0

unfoldable mutual
  unfolding gen_expr gen_print

  pub gen_stmt : Ast → List ℕ
  gen_stmt (block children) = gen_stmts children
  gen_stmt (var_decl _ left) = gen_expr left
  gen_stmt (assign left right) = gen_expr right
  gen_stmt (print_stmt left) = gen_print left
  gen_stmt (return_stmt left) = gen_expr left ++ (0x00 ∷ [])
  gen_stmt (if_stmt left middle right) = gen_expr left ++ (gen_stmt middle ++ gen_stmt right)
  gen_stmt (while_stmt left right) = gen_stmt right
  gen_stmt _ = []

  pub gen_stmts : Nodes → List ℕ
  gen_stmts no_nodes = []
  gen_stmts (node n ns) = gen_stmt n ++ gen_stmts ns

-- `generate_code`, with an output and a program that are not NULL.
unfoldable pub generate_code : Nodes → List ℕ
unfolding gen_stmts
generate_code program = emit64 pocol_magic ++ (gen_stmts program ++ (0x00 ∷ []))
