-- ===== src/Console/Laws.antt =====
-- Console: a line with one statement.
use Prim.Native.Char.{Char, code}
use Prim.Native.String.{◌++◌}
use text.Mathlib.TextLemmas.{nil-append, cons-append}
use sql_parser.Base.{
  ℕ, String, true, false, ◌≡◌, ◌⊎◌, inl, inr, refl, ap, ◌∙◌, [], str_eq, ◌==◌, arith, eq_iff,
  Bool-cases,
}
use sql_parser.Base.Chars.{lower}
use sql_parser.Console.{reply, run_query, run_line, statement, ends_with, drop_last}
use sql_parser.Executor.{execute}
use sql_parser.Lexer.{Unicode, tokenize}
use sql_parser.Parser.{Yacc}
use sql_parser.Parser.Grammar.{Tree, is_shifted}
use sql_parser.Parser.Laws.{parse-tokens}
use sql_parser.Parser.Statements.{query}
use sql_parser.Parser.Yield.{tokens}
use sql_parser.Plan.{plan}
use sql_parser.Storage.{Storage}
use sql_parser.Storage.Text.{strip, has_char}
use sql_parser.Value.{Runtime}

-- s and a character at its end
snoc : String → Char → String
snoc String.[] d = String.◌∷◌ d ""
snoc (String.◌∷◌ c s) d = String.◌∷◌ c (snoc s d)

append-snoc : (s : String) (d : Char) → s ++ String.◌∷◌ d "" ≡ snoc s d
unfolding snoc
append-snoc String.[] d = nil-append (String.◌∷◌ d "")
append-snoc (String.◌∷◌ c s) d =
    cons-append c s (String.◌∷◌ d "") ∙ ap (λ t. String.◌∷◌ c t) (append-snoc s d)

drop_last-snoc : (s : String) (d : Char) → drop_last (snoc s d) ≡ s
unfolding drop_last snoc
drop_last-snoc String.[] d = refl
drop_last-snoc (String.◌∷◌ c String.[]) d = refl
drop_last-snoc (String.◌∷◌ c (String.◌∷◌ e s)) d =
    ap (λ t. String.◌∷◌ c t) (drop_last-snoc (String.◌∷◌ e s) d)

ends_with-snoc : (n : ℕ) (s : String) (d : Char) → ends_with n (snoc s d) ≡ (code d == n)
unfolding ends_with snoc
ends_with-snoc n String.[] d = refl
ends_with-snoc n (String.◌∷◌ c String.[]) d = refl
ends_with-snoc n (String.◌∷◌ c (String.◌∷◌ e s)) d = ends_with-snoc n (String.◌∷◌ e s) d

-- A text ends with no character that it lacks.
ends_with-lacks : (n : ℕ) (s : String) → has_char n s ≡ false → ends_with n s ≡ false
unfolding ends_with has_char
ends_with-lacks n String.[] h = refl
ends_with-lacks n (String.◌∷◌ c String.[]) h = ground arith
ends_with-lacks n (String.◌∷◌ c (String.◌∷◌ d s)) h =
    let rest : has_char n (String.◌∷◌ d s) ≡ false = ground arith in
    ends_with-lacks n (String.◌∷◌ d s) rest

not_empty : (s : String) (n : ℕ) → ends_with n s ≡ true → str_eq s "" ≡ false
unfolding ends_with
not_empty s n h = elim (Bool-cases (str_eq s "")) [
  | inl empty ↦ absurd_by (ap (ends_with n) ((eq_iff s "").0 empty))
  | inr full ↦ full
]
  where
    absurd_by : ends_with n s ≡ false → str_eq s "" ≡ false
    absurd_by e = cc

module _ ⦃rt : Runtime⦄ {S : Type 0} (storage : Storage S) (yacc : Yacc) (uni : Unicode) where
  run_query-tokens :
      (body : String) (t : Tree) (s : S)
      → is_shifted t ≡ true
      → tokenize uni body ≡ tokens t []
      → run_query storage yacc uni body s ≡ reply (execute storage (plan (query t)) s)
  unfolding run_query
  run_query-tokens body t s h e =
      rw (parse-tokens yacc (tokenize uni) {F = rt.Float} t body h e, run_query)

  statement-query :
      (body q : String) (t : Tree) (s : S)
      → is_shifted t ≡ true
      → tokenize uni body ≡ tokens t []
      → has_char b';' body ≡ false
      → (q ≡ body) ⊎ (q ≡ snoc body ";")
      → statement storage yacc uni q s ≡ reply (execute storage (plan (query t)) s)
  statement-query body q t s h e lacks (inl same) =
      rw (same, ends_with-lacks b';' body lacks) (run_query-tokens body t s h e)
  statement-query body q t s h e lacks (inr semi) =
      rw (semi, ends_with-snoc b';' body ";", drop_last-snoc body ";", lacks)
        (run_query-tokens body t s h e)

  -- A line that, without the white space at its ends, is the text of one statement, or that text
  -- and a semicolon, is planned and executed as the query of the text's parse tree; a result is
  -- shown, and an exception is reported by its kind. The text is not empty and holds no semicolon,
  -- the line is not the word exit in any case, and the resolution of the grammar's conflict allows
  -- the tree.
  pub run_line-query :
      (line body : String) (t : Tree) (s : S)
      → is_shifted t ≡ true
      → tokenize uni body ≡ tokens t []
      → has_char b';' body ≡ false
      → str_eq body "" ≡ false
      → str_eq (lower (strip rt.is_space line)) "exit" ≡ false
      → (strip rt.is_space line ≡ body) ⊎ (strip rt.is_space line ≡ body ++ ";")
      → run_line storage yacc uni line s ≡ reply (execute storage (plan (query t)) s)
  unfolding run_line
  run_line-query line body t s h e lacks full stays (inl same) =
      let q = strip rt.is_space line in
      rw (stays, same, full) (statement-query body body t s h e lacks (inl refl))
  run_line-query line body t s h e lacks full stays (inr semi) =
      let ended = semi ∙ append-snoc body ";" in
      rw (stays, ended, not_empty (snoc body ";") b';' (ends_with-snoc b';' body ";"))
        (statement-query body (snoc body ";") t s h e lacks (inr refl))
