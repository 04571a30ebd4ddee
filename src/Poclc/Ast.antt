-- ===== src/Poclc/Ast.antt =====
-- poclc/poclc.h: the nodes of the syntax tree, with the fields that the parser sets and the generator
-- reads; a node's line, which nothing reads, is left out. `null` is the pointer NULL. No code makes
-- or tests AST_PARAM_LIST and AST_ARG_LIST; AST_PROGRAM is the list of its children.
use pocol_vm.Prelude.{ℕ, Bool, true, false, Option, List}
use pocol_vm.Poclc.Token.{TokenType}

mutual
  pub data Ast : Type 0 where
    null : Ast
    -- The name, the number of parameters, and the body.
    func_decl : List ℕ → ℕ → (left : Ast) → Ast
    var_decl : Option (List ℕ) → (left : Ast) → Ast
    assign : (left right : Ast) → Ast
    -- Condition, then branch, else branch.
    if_stmt : (left middle right : Ast) → Ast
    while_stmt : (left right : Ast) → Ast
    for_stmt : (left middle right : Ast) → Ast
    return_stmt : (left : Ast) → Ast
    print_stmt : (left : Ast) → Ast
    binary_expr : TokenType → (left right : Ast) → Ast
    unary_expr : List ℕ → (left : Ast) → Ast
    call_expr : List ℕ → (children : Nodes) → Ast
    ident_expr : List ℕ → Ast
    number_expr : ℕ → Ast
    string_expr : List ℕ → Ast
    block : (children : Nodes) → Ast

  pub data Nodes : Type 0 where
    no_nodes : Nodes
    node : Ast → Nodes → Nodes

abbrev pub is_null : Ast → Bool
is_null null = true
is_null _ = false

unfoldable pub append_child : Nodes → Ast → Nodes
append_child no_nodes child = node child no_nodes
append_child (node n ns) child = node n (append_child ns child)

-- `ast_add_child`: a NULL child is not added.
unfoldable pub ast_add_child : Nodes → Ast → Nodes
unfolding append_child
ast_add_child ns null = ns
ast_add_child ns child = append_child ns child
