-- ===== src/Storage/Text.antt =====
-- The methods of Python's str that sql-engine/storage_server.py and storage_disk.py read texts with.
pub mod Laws
use Prim.Native.Char.{Char, code}
use Prim.Native.String.{◌++◌}
use sql_parser.Base.{
  ℕ, String, Bool, true, false, ◌&&◌, ◌||◌, List, [], ◌∷◌, str_eq, if◌then◌else◌, ◌==◌,
}
use sql_parser.Value.{Runtime}

-- s.startswith(prefix)
unfoldable pub startswith : String → String → Bool
startswith s String.[] = true
startswith String.[] (String.◌∷◌ d p) = false
startswith (String.◌∷◌ c s) (String.◌∷◌ d p) = code c == code d && startswith s p

-- whether the character is in the text
unfoldable pub has_char : ℕ → String → Bool
has_char n String.[] = false
has_char n (String.◌∷◌ c s) = code c == n || has_char n s

-- puts a character before the first part
abbrev onto_first : Char → List String → List String
onto_first c [] = String.◌∷◌ c "" ∷ []
onto_first c (p ∷ ps) = String.◌∷◌ c p ∷ ps

-- s.split(c) for one character: a part between any two of them, perhaps empty
unfoldable pub split_at : ℕ → String → List String
split_at n String.[] = "" ∷ []
split_at n (String.◌∷◌ c s) =
    let parts = split_at n s in if code c == n then "" ∷ parts else onto_first c parts

abbrev drop_empty : List String → List String
drop_empty [] = []
drop_empty (p ∷ ps) = let rest = drop_empty ps in if str_eq p "" then rest else p ∷ rest

module _ ⦃rt : Runtime⦄ where
  -- the parts between any two white characters, perhaps empty
  unfoldable pub fields : String → List String
  fields String.[] = "" ∷ []
  fields (String.◌∷◌ c s) =
      let parts = fields s in if rt.is_space c then "" ∷ parts else onto_first c parts

  -- s.split()
  unfoldable pub split : String → List String
  unfolding fields
  split s = drop_empty (fields s)

-- sep.join(parts)
unfoldable pub join : String → List String → String
join sep [] = ""
join sep (p ∷ []) = p
join sep (p ∷ q ∷ ps) = p ++ sep ++ join sep (q ∷ ps)

-- s without the white characters at its start
drop_space : (Char → Bool) → String → String
drop_space white String.[] = ""
drop_space white (String.◌∷◌ c s) = if white c then drop_space white s else String.◌∷◌ c s

-- c in front of s, unless c is white and nothing follows
abbrev onto_text : (Char → Bool) → Char → String → String
onto_text white c String.[] = if white c then "" else String.◌∷◌ c ""
onto_text white c (String.◌∷◌ d s) = String.◌∷◌ c (String.◌∷◌ d s)

drop_space_end : (Char → Bool) → String → String
drop_space_end white String.[] = ""
drop_space_end white (String.◌∷◌ c s) = onto_text white c (drop_space_end white s)

-- s.strip()
unfoldable pub strip : (Char → Bool) → String → String
unfolding drop_space drop_space_end
strip white s = drop_space white (drop_space_end white s)
