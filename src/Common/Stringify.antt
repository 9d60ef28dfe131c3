-- ===== src/Common/Stringify.antt =====
-- `JSON.stringify` and decimal numerals, as code points.
use socblitz.Common.Tests.{ltb, eqb, if◌then◌else◌}
use socblitz.Common.Text.{codes}
use socblitz.Common.Json.{
  Json, Items, Fields, null, bool, num, str, arr, obj, nil, cons, end, field,
}
use Prim.Native.Nat.{ℕ, zero, suc, ◌+◌, ◌/◌, ◌%◌}
use Prim.Native.String.{String}
use mathlib.Core.Bool.{true, false, ◌||◌}
use mathlib.Core.List.{List, [], ◌∷◌, ◌++◌}

-- The digits of a number, on fuel for their count.
unfoldable pub digits_on : ℕ → ℕ → List ℕ
digits_on zero n = []
digits_on (suc f) n =
    let front = digits_on f (n / 10) in
    if ltb n 10 then (n + 48) ∷ [] else front ++ (n % 10 + 48) ∷ []

unfoldable pub decimal : ℕ → List ℕ
unfolding digits_on
decimal n = digits_on (suc n) n

hex_digit : ℕ → ℕ
hex_digit n = if ltb n 10 then n + 48 else n + 87

-- One character of a JSON text.
escape : ℕ → List ℕ
unfolding hex_digit
escape c =
    if eqb c 34 || eqb c 92
    then 92 ∷ c ∷ []
    else if eqb c 8
    then codes "\\b"
    else if eqb c 12
    then codes "\\f"
    else if eqb c 10
    then codes "\\n"
    else if eqb c 13
    then codes "\\r"
    else if eqb c 9
    then codes "\\t"
    else if ltb c 32
    then codes "\\u00" ++ hex_digit (c / 16) ∷ hex_digit (c % 16) ∷ []
    else c ∷ []

escape_all : List ℕ → List ℕ
unfolding escape
escape_all [] = []
escape_all (c ∷ cs) = escape c ++ escape_all cs

quote : String → List ℕ
unfolding escape_all
quote s = 34 ∷ escape_all (codes s) ++ 34 ∷ []

-- what stands before a further item
abbrev comma_items : Items → List ℕ
comma_items nil = []
comma_items (cons _ _) = codes ","

abbrev comma_fields : Fields → List ℕ
comma_fields end = []
comma_fields (field _ _ _) = codes ","

unfoldable mutual
  unfolding decimal quote

  pub stringify : Json → List ℕ
  stringify null = codes "null"
  stringify (bool true) = codes "true"
  stringify (bool false) = codes "false"
  stringify (num n) = decimal n
  stringify (str s) = quote s
  stringify (arr js) = codes "[" ++ stringify_items js ++ codes "]"
  stringify (obj fs) = codes "{" ++ stringify_fields fs ++ codes "}"

  pub stringify_items : Items → List ℕ
  stringify_items nil = []
  stringify_items (cons j js) = stringify j ++ comma_items js ++ stringify_items js

  pub stringify_fields : Fields → List ℕ
  stringify_fields end = []
  stringify_fields (field k j fs) =
      quote k ++ codes ":" ++ stringify j ++ comma_fields fs ++ stringify_fields fs
