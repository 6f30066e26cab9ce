-- ===== src/Tests/Console.antt =====
-- Lines at the prompt.
use sql_parser.Base.{◌≡◌, refl, inr, String, str_eq, some, none, [], false}
use Prim.Native.String.{◌++◌}
use sql_parser.Base.Chars.{lower}
use sql_parser.Console.{reply, run_line, leave, several_statements}
use sql_parser.Console.Laws.{run_line-query}
use sql_parser.Executor.{execute}
use sql_parser.Lexer.{tokenize, classify}
use sql_parser.Parser.Grammar.{
  Tree, select_stmt, select_aggregate, count_star, single, plain, simple, unqualified, greater,
  value_number,
}
use sql_parser.Parser.Statements.{query}
use sql_parser.Parser.Yield.{
  tokens, select_tokens, call_tokens, optional_tokens, condition_tokens, chain_tokens, not_tokens,
  simple_tokens, ref_tokens, value_tokens,
}
use sql_parser.Plan.{plan}
use sql_parser.Storage.Memory.{storage}
use sql_parser.Storage.Text.{strip, has_char}
use sql_parser.Tests.Memory.{database}
use sql_parser.Tests.Parser.{reader, ascii_digits}
use sql_parser.Tests.Sample.{sample}

abbrev sample_line : String
sample_line = "  Select count(*) FROM Users WHERE age > 30; "

abbrev sample_body : String
sample_body = "Select count(*) FROM Users WHERE age > 30"

abbrev sample_tree : Tree
sample_tree = select_stmt (
    select_aggregate count_star "users"
      (some (single (single (plain (simple (unqualified "age") greater (value_number 30)))))) none)

body_tokens : tokenize ascii_digits sample_body ≡ tokens sample_tree []
unfolding tokenize classify tokens select_tokens call_tokens optional_tokens condition_tokens
    chain_tokens not_tokens simple_tokens ref_tokens value_tokens
body_tokens = refl

body_alone : has_char b';' sample_body ≡ false
unfolding has_char
body_alone = refl

line_stays : str_eq (lower (strip sample.is_space sample_line)) "exit" ≡ false
unfolding lower strip
line_stays = refl

line_stripped : strip sample.is_space sample_line ≡ sample_body ++ ";"
unfolding strip
line_stripped = refl

run_line-query_example :
    run_line storage reader ascii_digits sample_line database
    ≡ reply (execute storage (plan (query sample_tree)) database)
run_line-query_example =
    run_line-query storage reader ascii_digits sample_line sample_body sample_tree database refl
      body_tokens body_alone refl line_stays (inr line_stripped)

test_several :
    run_line storage reader ascii_digits "SELECT a FROM t; SELECT b FROM t;" database
    ≡ (several_statements, database)
unfolding run_line has_char lower
test_several = refl

test_leave : run_line storage reader ascii_digits " EXIT " database ≡ (leave, database)
unfolding run_line lower
test_leave = refl
