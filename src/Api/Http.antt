-- ===== src/Api/Http.antt =====
-- A request as axios is given it. A URL is kept as the template literal of the source: its fixed
-- text and the values put in.
use socblitz.Common.{ℕ, String, Bool, false, Option, none, List, [], ◌∷◌, ◌++◌, codes}
use socblitz.Common.Json.{Json, Fields}

pub data Piece : Type 0 where
  lit : String → Piece
  hole : String → Piece

abbrev pub render : List Piece → List ℕ
render [] = []
render (lit s ∷ t) = codes s ++ render t
render (hole s ∷ t) = codes s ++ render t

pub data Verb : Type 0 where
  get post put patch delete : Verb

pub data Body : Type 0 where
  no_body : Body
  json : Json → Body
  -- `new URLSearchParams({ … })`
  form : List (String × String) → Body

pub record HttpRequest : Type 0 where
  pub verb : Verb
  pub url : List Piece
  pub params : Option Fields
  pub body : Body
  pub timeout : Option ℕ
  -- `responseType: 'blob'`
  pub blob : Bool

abbrev pub fetch : Verb → List Piece → Option Fields → Body → HttpRequest
fetch verb url params body = record {
  verb = verb;
  url = url;
  params = params;
  body = body;
  timeout = none;
  blob = false;
}

-- the calls of axios with and without a body
abbrev pub get_url : List Piece → HttpRequest
get_url url = fetch get url none no_body

abbrev pub get_with : List Piece → Option Fields → HttpRequest
get_with url params = fetch get url params no_body

abbrev pub post_url : List Piece → HttpRequest
post_url url = fetch post url none no_body

abbrev pub post_json : List Piece → Json → HttpRequest
post_json url j = fetch post url none (json j)

abbrev pub patch_json : List Piece → Json → HttpRequest
patch_json url j = fetch patch url none (json j)

abbrev pub put_json : List Piece → Json → HttpRequest
put_json url j = fetch put url none (json j)

abbrev pub delete_url : List Piece → HttpRequest
delete_url url = fetch delete url none no_body

-- one fixed path
abbrev pub path : String → List Piece
path s = lit s ∷ []

-- `${a}${id}${b}` with nothing behind the value if `b` is empty
abbrev pub path_id : String → String → List Piece
path_id a id = lit a ∷ hole id ∷ []

abbrev pub path_id_sub : String → String → String → List Piece
path_id_sub a id b = lit a ∷ hole id ∷ lit b ∷ []

abbrev pub path_two : String → String → String → String → List Piece
path_two a id b sub = lit a ∷ hole id ∷ lit b ∷ hole sub ∷ []
