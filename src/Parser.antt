-- ===== src/Parser.antt =====
-- sql-engine/parser.py: SQLParser. PLY is not part of the program: its parser is the parameter
-- `Yacc`, which gives the parse tree of a list of tokens. The p_ functions, which PLY calls as it
-- builds the tree, are functions on it.
pub mod Grammar
pub mod Yield
pub mod Actions
pub mod Statements
pub mod Reader
pub mod Laws
use sql_parser.Base.{Bool, true, ◌≡◌, String, Option, List, []}
use sql_parser.Ast.{Query}
use sql_parser.Token.{Token}
use sql_parser.Parser.Grammar.{Tree, is_shifted}
use sql_parser.Parser.Yield.{tokens}
use sql_parser.Parser.Actions.{map_option}
use sql_parser.Parser.Statements.{query}

-- yacc.yacc(module=self). Tokens that the grammar derives, under the conflict's resolution by a shift,
-- are accepted, and the tree is a derivation of them under the same resolution.
pub record Yacc : Type 0 where
  pub tree : List Token → Option Tree
  pub accepts :
      (t : Tree)
      → is_shifted t ≡ true
      → (u : Tree) × (tree (tokens t []) ≡ Option.some u)
        × (is_shifted u ≡ true)
        × (tokens u [] ≡ tokens t [])

-- SQLParser.parse(data), for a lexer
unfoldable pub parse : {F : Type 0} → Yacc → (String → List Token) → String → Option (Query F)
parse yacc lexer s = map_option query (yacc.tree (lexer s))
