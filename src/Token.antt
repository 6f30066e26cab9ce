-- ===== src/Token.antt =====
-- sql-engine/lexer.py: the tokens. A token is a LexToken of PLY, which has a type and the value that
-- the lexer's rule left in it.
use sql_parser.Base.{ℕ, String}

-- SQLLexer.reserved
pub data Keyword : Type 0 where
  select_ from_ where_ order_ by_ limit_ count_ sum_ avg_ min_ max_ distinct_ group_ : Keyword
  having_ and_ or_ not_ asc_ desc_ join_ on_ create_ table_ int_ float_ bool_ : Keyword
  varchar_ primary_ key_ null_ into_ values_ insert_ delete_ update_ set_ : Keyword

pub data Token : Type 0 where
  keyword : Keyword → Token
  id : String → Token
  number : ℕ → Token
  string : String → Token
  star lparen rparen comma minus dot equal ge le gt lt : Token

-- The type that `reserved` gives a word, which is also the word in upper case.
abbrev pub word : Keyword → String
word select_ = "SELECT"
word from_ = "FROM"
word where_ = "WHERE"
word order_ = "ORDER"
word by_ = "BY"
word limit_ = "LIMIT"
word count_ = "COUNT"
word sum_ = "SUM"
word avg_ = "AVG"
word min_ = "MIN"
word max_ = "MAX"
word distinct_ = "DISTINCT"
word group_ = "GROUP"
word having_ = "HAVING"
word and_ = "AND"
word or_ = "OR"
word not_ = "NOT"
word asc_ = "ASC"
word desc_ = "DESC"
word join_ = "JOIN"
word on_ = "ON"
word create_ = "CREATE"
word table_ = "TABLE"
word int_ = "INT"
word float_ = "FLOAT"
word bool_ = "BOOL"
word varchar_ = "VARCHAR"
word primary_ = "PRIMARY"
word key_ = "KEY"
word null_ = "NULL"
word into_ = "INTO"
word values_ = "VALUES"
word insert_ = "INSERT"
word delete_ = "DELETE"
word update_ = "UPDATE"
word set_ = "SET"

-- SQLLexer.tokens: the types.
abbrev pub token_type : Token → String
token_type (keyword k) = word k
token_type (id s) = "ID"
token_type (number n) = "NUMBER"
token_type (string s) = "STRING"
token_type star = "STAR"
token_type lparen = "LPAREN"
token_type rparen = "RPAREN"
token_type comma = "COMMA"
token_type minus = "MINUS"
token_type dot = "DOT"
token_type equal = "EQUAL"
token_type ge = "GE"
token_type le = "LE"
token_type gt = "GT"
token_type lt = "LT"
