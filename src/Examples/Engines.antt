-- ===== src/Examples/Engines.antt =====
-- The engine page at concrete inputs.
use socblitz.Common.{
  All, String, true, ◌≡◌, ◌≢◌, refl, Option, none, some, List, [], ◌∷◌, trim, eq_iff, arith,
}
use socblitz.Common.Json.{Json, num}
use socblitz.Engine.Clean.{clean, comma, split}
use socblitz.Engine.CleanLaws.{IsPart, letters_of, letters, clean-letters_of}
use socblitz.Engine.Parsers
use socblitz.Engine.Parsers.{Parser, delete, delete_reply, list_loaded, save, pick}
use socblitz.Engine.Parsers.Roles.{deletes}
use socblitz.Engine.Parsers.Deletion.{run-delete, editing_first}
use socblitz.Engine.Trials
use socblitz.Engine.RuleGen
use socblitz.Engine.Yaral

abbrev myapp : Parser
myapp = record { name = "myapp"; yaml = "name: myapp"; source = "custom" }

abbrev sshd : Parser
sshd = record { name = "sshd"; yaml = "name: sshd"; source = "builtin" }

abbrev visit : List Parsers.Event
visit = list_loaded (myapp ∷ sshd ∷ []) ∷ pick 1 ∷ save ∷ delete true ∷ []

-- the call is sent
deletes_one :
    deletes (Parsers.act (some "admin") (editing_first Parsers.opened myapp []) (delete true)).1
    ≡ "myapp" ∷ []
unfolding Parsers.act Parsers.opened Parsers.current Parsers.delete_current
deletes_one = refl

myapp_ne : myapp.name ≢ ""
myapp_ne e = ground (arith, eq_iff "myapp" "")

myapp_not_new : myapp.name ≢ Parsers.new_key
myapp_not_new e = ground (arith, eq_iff "myapp" "__new__")

run-delete_example :
    (deletes (
        Parsers.effects
          (some "admin")
          (editing_first Parsers.opened myapp (sshd ∷ []))
          (delete true ∷ delete_reply "" ∷ list_loaded (sshd ∷ []) ∷ []))
      ≡ "myapp" ∷ [])
    × ((Parsers.run
          (some "admin")
          (editing_first Parsers.opened myapp (sshd ∷ []))
          (delete true ∷ delete_reply "" ∷ list_loaded (sshd ∷ []) ∷ [])).list
        ≡ sshd ∷ [])
    × ((Parsers.run
          (some "admin")
          (editing_first Parsers.opened myapp (sshd ∷ []))
          (delete true ∷ delete_reply "" ∷ list_loaded (sshd ∷ []) ∷ [])).selected
        ≡ some "myapp")
    × ((Parsers.run
          (some "admin")
          (editing_first Parsers.opened myapp (sshd ∷ []))
          (delete true ∷ delete_reply "" ∷ list_loaded (sshd ∷ []) ∷ [])).draft
        ≡ "name: myapp")
run-delete_example =
    run-delete (some "admin") Parsers.opened myapp (sshd ∷ []) refl refl myapp_ne myapp_not_new

abbrev groups : List String
groups = "authentication_failed" ∷ "custom" ∷ []

abbrev groups_text : String
groups_text = " authentication_failed, ,custom"

clean-letters_of_example :
    All (IsPart comma) (clean comma groups_text)
    × (letters_of (clean comma groups_text) ≡ letters comma groups_text)
clean-letters_of_example = clean-letters_of comma groups_text

-- empty parts and white space are dropped
groups_read : clean comma groups_text ≡ groups
unfolding clean split trim
groups_read = refl

abbrev number : String → Option Json
number s = some (num 7)

abbrev json_text : Json → String
json_text j = "{}"

abbrev waiting_trial : Trials.Trial
waiting_trial = record { message = "line"; result = none; busy = true }

-- a saved parser is edited, and every answer of its tab is awaited
abbrev awaiting : Parsers.Parsers
awaiting = record Parsers.opened {
  list = myapp ∷ sshd ∷ [];
  selected = some "myapp";
  draft = "name: myapp";
  sample = "line";
  busy = true;
  gen_busy = true;
  saving = true;
  deleting = true;
}

abbrev one_sample : Yaral.Yaral
one_sample = record Yaral.open_yaral { lines = "line"; busy = true; gen_busy = true }
