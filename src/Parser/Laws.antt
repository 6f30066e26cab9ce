-- ===== src/Parser/Laws.antt =====
-- Parser: the grammar has one tree for a query, and what the parser makes of it.
use sql_parser.Base.{
  true, String, ◌≡◌, ◌≢◌, refl, sym, ap, ◌∙◌, Option, none, some, List, [], ◌∷◌, All, map,
}
use sql_parser.Token.{
  Token, Keyword, keyword, id, comma, select_, from_, join_, having_, order_, limit_,
}
use sql_parser.Lexer.{Unicode, tokenize}
use sql_parser.Lexer.Lexeme.{Lexeme, IsLexeme, token, render}
use sql_parser.Lexer.RoundTrip.{tokenize-render}
use sql_parser.Parser.{Yacc, parse}
use sql_parser.Parser.Grammar.{Tree, CallTree, count_star, call, sum, avg, min, max, is_shifted}
use sql_parser.Parser.Yield.{tokens, call_tokens}
use sql_parser.Parser.Actions.{map_option}
use sql_parser.Parser.Statements.{query}
use sql_parser.Parser.Reader.Parts.{read_call}
use sql_parser.Parser.Reader.Select.{read_aggregate}
use sql_parser.Parser.Reader.Statements.{read_query, read_query-tokens}

-- `some` is injective.
value_of : {t u : Tree} → ◌≡◌ {A = Option Tree} (some t) (some u) → t ≡ u
value_of e = cc

-- Two parse trees that the resolution of the grammar's conflict by a shift allows, and that have the
-- same tokens, are the same tree.
pub tokens-injective :
    (t u : Tree) → is_shifted t ≡ true → is_shifted u ≡ true → tokens t [] ≡ tokens u [] → t ≡ u
tokens-injective t u h k e =
    value_of (sym (read_query-tokens t h) ∙ ap read_query e ∙ read_query-tokens u k)

module _ (yacc : Yacc) (lexer : String → List Token) where
  -- A text whose tokens are those of a parse tree that the resolution of the conflict allows is
  -- parsed, and the query is the one that the actions give that tree.
  pub parse-tokens :
      {F : Type 0} (t : Tree) (s : String)
      → is_shifted t ≡ true
      → lexer s ≡ tokens t []
      → parse {F = F} yacc lexer s ≡ some (query t)
  unfolding parse
  parse-tokens {F} t s h e =
      let (u, found, k, same) = yacc.accepts t h in
      ap (λ (ts : List Token). map_option query (yacc.tree ts)) e
      ∙ ap (map_option query) found
      ∙ ap (λ (v : Tree). some (query {F = F} v)) (tokens-injective u t k h same)

-- From the text to the query: for every parser of the tokens that accepts the grammar, and every table
-- of Unicode's digits, a text that is written out of lexemes with a space after each, and whose
-- lexemes have the tokens of a parse tree that the resolution of the conflict allows, is parsed to
-- the query that the actions give that tree.
pub parse-render :
    {F : Type 0} (yacc : Yacc) (uni : Unicode) (t : Tree) (ls : List Lexeme)
    → is_shifted t ≡ true
    → All IsLexeme ls
    → map token ls ≡ tokens t []
    → parse {F = F} yacc (tokenize uni) (render ls) ≡ some (query t)
parse-render yacc uni t ls h k e =
    parse-tokens yacc (tokenize uni) t (render ls) h (tokenize-render uni ls k ∙ e)

-- What the reader refuses has no tree.
unread_lem :
    (t : Tree) → is_shifted t ≡ true → (ts : List Token) → read_query ts ≡ none → tokens t [] ≢ ts
unread_lem t h ts fails e =
    let same : ◌≡◌ {A = Option Tree} (some t) none =
      sym (read_query-tokens t h) ∙ ap read_query e ∙ fails in
    cc

-- SELECT f, ...
abbrev pub select_more : CallTree → List Token → List Token
select_more f k = keyword select_ ∷ call_tokens f (comma ∷ k)

-- SELECT f FROM table word ...
abbrev pub select_then : CallTree → String → Keyword → List Token → List Token
select_then f table w k = keyword select_ ∷ call_tokens f (keyword from_ ∷ id table ∷ keyword w ∷ k)

unread :
    (f : CallTree) (table : String) (k : List Token)
    → (read_query (select_more f k) ≡ none)
      × (read_query (select_then f table join_ k) ≡ none)
      × (read_query (select_then f table having_ k) ≡ none)
      × (read_query (select_then f table order_ k) ≡ none)
      × (read_query (select_then f table limit_ k) ≡ none)
unfolding read_query call_tokens read_aggregate read_call
unread count_star table k = (refl, refl, refl, refl, refl)
unread (call sum c) table k = (refl, refl, refl, refl, refl)
unread (call avg c) table k = (refl, refl, refl, refl, refl)
unread (call min c) table k = (refl, refl, refl, refl, refl)
unread (call max c) table k = (refl, refl, refl, refl, refl)

-- The tokens of no tree that the resolution of the conflict allows start with SELECT, an aggregate
-- and a comma, nor with SELECT, an aggregate, FROM, a table and then JOIN, HAVING, ORDER or LIMIT.
pub select-call-IsRejected :
    (f : CallTree) (table : String) (k : List Token) (t : Tree)
    → is_shifted t ≡ true
    → (tokens t [] ≢ select_more f k)
      × (tokens t [] ≢ select_then f table join_ k)
      × (tokens t [] ≢ select_then f table having_ k)
      × (tokens t [] ≢ select_then f table order_ k)
      × (tokens t [] ≢ select_then f table limit_ k)
select-call-IsRejected f table k t h =
    let none_of = unread f table k in
    (
      unread_lem t h _ none_of.0,
      unread_lem t h _ none_of.1,
      unread_lem t h _ none_of.2,
      unread_lem t h _ none_of.3,
      unread_lem t h _ none_of.4,
    )
