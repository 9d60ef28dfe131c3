-- ===== src/Common/Json.antt =====
-- The JSON values that requests, query keys and rows carry.
use Prim.Native.Nat.{ℕ}
use Prim.Native.String.{String}
use mathlib.Core.Bool.{Bool}
use mathlib.Core.Option.{Option, none, some}
use mathlib.Core.List.{List, [], ◌∷◌}
use text.Mathlib.Text.{◌==◌}
use socblitz.Common.Tests.{if◌then◌else◌}

mutual
  pub data Json : Type 0 where
    null : Json
    bool : Bool → Json
    num : ℕ → Json
    str : String → Json
    arr : Items → Json
    obj : Fields → Json

  pub data Items : Type 0 where
    nil : Items
    cons : Json → Items → Items

  pub data Fields : Type 0 where
    end : Fields
    field : String → Json → Fields → Fields

abbrev pub items : List Json → Items
items [] = nil
items (j ∷ js) = cons j (items js)

-- an array of texts
abbrev pub strs : List String → Items
strs [] = nil
strs (s ∷ ss) = cons (str s) (strs ss)

-- `null`, or the text
abbrev pub nullable : Option String → Json
nullable none = null
nullable (some s) = str s

-- `{ ...a, ...b }` where the names are disjoint
abbrev pub spread : Fields → Fields → Fields
spread end fs = fs
spread (field k v rest) fs = field k v (spread rest fs)

-- `j[key]`; `none` is `undefined`
abbrev pub get : String → Fields → Option Json
get key end = none
get key (field k v rest) = if k == key then some v else get key rest
