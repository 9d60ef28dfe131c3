-- ===== src/Engine/Parsers/Roles.antt =====
-- What a user may change with the parser editor, by role, and what deleting a parser leaves behind.
use socblitz.Common.{
  String, Bool, true, false, ◌≡◌, refl, Option, none, some, List, [], ◌∷◌, any, any-append,
  if◌then◌else◌, all, not, ◌&&◌, eq_refl, ◌==◌, arith,
}
use socblitz.Api.{engine, engine_save_parser, engine_delete_parser}
use socblitz.Ui.{Effect, send}
use socblitz.Engine.Parsers.{
  Parser, Parsers, is_new, delete_current, Event, is_admin, shown, delete, act, step, effects,
  current,
}

-- a call that changes the parsers of the engine
abbrev pub is_change : Effect → Bool
is_change (send (engine (engine_save_parser yaml))) = true
is_change (send (engine (engine_delete_parser name))) = true
is_change _ = false

act-is_change :
    (role : Option String) (p : Parsers) (e : Event)
    → is_admin role ≡ false
    → any is_change (act role p e).1 ≡ false
unfolding act
act-is_change role p e h = ground arith

-- Whatever a user who is not an administrator does, and whatever the server answers, from any state of the
-- tab: no call that saves or deletes a parser is sent.
pub effects-is_change :
    (role : Option String) (p : Parsers) (es : List Event)
    → is_admin role ≡ false
    → any is_change (effects role p es) ≡ false
unfolding effects
effects-is_change role p [] h = refl
effects-is_change role p (e ∷ es) h =
    rw
      (
        any-append is_change (act role p e).1 (effects role (step role p e) es),
        act-is_change role p e h,
        effects-is_change role (step role p e) es h,
      )
      refl

-- The names of the parsers that a list of calls deletes.
abbrev pub deletes : List Effect → List String
deletes [] = []
deletes (send (engine (engine_delete_parser name)) ∷ fs) = name ∷ deletes fs
deletes (_ ∷ fs) = deletes fs

abbrev pub is_confirmed : Event → Bool
is_confirmed (delete confirmed) = confirmed
is_confirmed _ = false

abbrev pub is_custom_named : Option Parser → String → Bool
is_custom_named none name = false
is_custom_named (some q) name = q.source == "custom" && q.name == name

-- an administrator confirmed to delete the parser of the name, which is edited and a custom one
abbrev pub may_delete : Option String → Parsers → Event → String → Bool
may_delete role p e name =
    is_admin role && is_confirmed e && not (is_new p) && is_custom_named (current p) name

-- the guards of the button, with the parser that is edited
guarded-delete :
    (p : Parsers) (shows admin idle confirmed fresh : Bool) (o : Option Parser)
    → (fresh ≡ true → o ≡ none)
    → all
        (λ name. admin && confirmed && not fresh && is_custom_named o name)
        (deletes (if shows && admin && idle && confirmed then delete_current p o else (p, [])).1)
      ≡ true
unfolding delete_current
guarded-delete p shows admin idle confirmed fresh none h = ground arith
guarded-delete p shows admin idle confirmed false (some q) h = ground (arith, eq_refl q.name)
guarded-delete p shows admin idle confirmed true (some q) h = ground (arith, h refl)

current-new : (p : Parsers) → is_new p ≡ true → current p ≡ none
unfolding current
current-new p h = rw h refl

-- A call that deletes a parser is only sent when an administrator confirmed it, and it then names the
-- parser that is edited, which is a saved and a custom one, never a built-in one.
pub deletes-may_delete :
    (role : Option String) (p : Parsers) (e : Event)
    → all (may_delete role p e) (deletes (act role p e).1) ≡ true
unfolding act
deletes-may_delete role p (delete c) =
    guarded-delete p (shown p.selected) (is_admin role) (not p.deleting) c (is_new p) (current p)
      (current-new p)
deletes-may_delete role p e = ground arith
