-- ===== src/Turn/Progress.antt =====
-- patterns/agentic_loop.py: whether an iteration made progress, `_is_stuck`. The lower case of a text
-- with each run of white space made one blank is a parameter.
use Prim.Native.Char.{Char}
use text.Mathlib.Text.{find?}
use kaos_agents.Prelude.{
  ℕ, ◌*◌, Bool, true, false, not, ◌||◌, some, none, List, [], ◌∷◌, ◌++◌, String, filter, length,
  if◌then◌else◌, leb, ltb, ◌==◌ as nat_beq,
}
use kaos_agents.Prelude.Equality.{◌==◌, string_key, contains, to_set}

-- The texts of three characters of a text.
unfoldable pub windows : Char → Char → String → List String
windows a b String.[] = []
windows a b (String.◌∷◌ c s) = String.◌∷◌ a (String.◌∷◌ b (String.◌∷◌ c String.[])) ∷ windows b c s

unfoldable pub char_3grams : String → List String
char_3grams String.[] = []
char_3grams (String.◌∷◌ a String.[]) = String.◌∷◌ a String.[] ∷ []
char_3grams (String.◌∷◌ a (String.◌∷◌ b String.[])) = String.◌∷◌ a (String.◌∷◌ b String.[]) ∷ []
char_3grams (String.◌∷◌ a (String.◌∷◌ b (String.◌∷◌ c s))) = to_set (windows a b (String.◌∷◌ c s))

-- The sizes of `a & b` and of `a | b`, for two sets.
unfoldable pub common : List String → List String → ℕ
common a b = length (filter (λ x. contains b x) a)

unfoldable pub in_either : List String → List String → ℕ
in_either a b = length (a ++ filter (λ x. not (contains a x)) b)

-- Whether the similarity is at least 0.85; it is 0 for two empty sets.
unfoldable pub jaccard_reaches : List String → List String → Bool
jaccard_reaches a b =
    if nat_beq (in_either a b) 0 then false else leb (85 * in_either a b) (100 * common a b)

abbrev pub is_in : String → String → Bool
is_in part whole = elim (find? whole part) [ some n ↦ true | none ↦ false ]

-- The previous answer with its number of tool calls, and the new one.
unfoldable pub is_stuck : (String → String) → String → String → ℕ → ℕ → Bool
is_stuck normalize last_text new_text last_tool_count new_tool_count =
    if ltb last_tool_count new_tool_count || (last_text == "" || new_text == "")
    then false
    else (last_text == new_text
        || (is_in last_text new_text || is_in new_text last_text)
        || jaccard_reaches (char_3grams (normalize last_text)) (char_3grams (normalize new_text)))
