-- ===== src/CustomDashboard/Refinement.antt =====
-- The widgets of a page as a finite map from keys: what adding and removing do to it.
use mathlib.Core.Path.{subst}
use socblitz.Common.{
  ℕ, zero, suc, ◌≡◌, refl, sym, ◌∙◌, ap, ◌≢◌, true, false, inl, inr, Bool-cases, Option, none, some,
  List, [], ◌∷◌, find?, All, get_elem?, if◌then◌else◌, arith,
}
use socblitz.CustomDashboard.{
  Widget, Page, widget_key, same_key, add_to, remove_at, add_widget, remove_widget, is_builtin,
}
use socblitz.CustomDashboard.Widgets.{
  same_key_iff, HasDistinctKeys, add_to-HasDistinctKeys, remove_at-HasDistinctKeys,
}

-- a key as the list of its code points
abbrev pub Key : Type 0
Key = List ℕ

-- the widget of a key
abbrev pub lookup : List Widget → Key → Option Widget
lookup ws k = find? (λ x. same_key (widget_key x) k) ws

-- what is done to a finite map
pub data Change : Type 0 where
  put : Widget → Change
  drop : Widget → Change
  keep : Change

abbrev pub apply : Change → (Key → Option Widget) → Key → Option Widget
apply (put w) m k = if same_key (widget_key w) k then some w else m k
apply (drop w) m k = if same_key (widget_key w) k then none else m k
apply keep m k = m k

put_again :
    (w x : Widget) (k : Key) (m : Option Widget)
    → widget_key x ≡ widget_key w
    → (if same_key (widget_key w) k then some w else m) ≡ (
        if same_key (widget_key w) k
        then some w
        else if same_key (widget_key x) k
        then some x
        else m)
put_again w x k m e = elim (Bool-cases (same_key (widget_key w) k)) [
  | inl f ↦ rw f refl
  | inr f ↦ rw (e, f) refl
]

-- a test of two keys, where one is the key of x
put_other :
    (w x : Widget) (k : Key) (m n : Option Widget)
    → same_key (widget_key x) (widget_key w) ≡ false
    → m ≡ (if same_key (widget_key w) k then some w else n)
    → (if same_key (widget_key x) k then some x else m) ≡ (
        if same_key (widget_key w) k
        then some w
        else if same_key (widget_key x) k
        then some x
        else n)
put_other w x k m n e h = ground (
  arith,
  same_key_iff (widget_key x) (widget_key w),
  same_key_iff (widget_key x) k,
  same_key_iff (widget_key w) k,
)

lookup-add_to :
    (ws : List Widget) (w : Widget) (k : Key) → lookup (add_to ws w) k ≡ apply (put w) (lookup ws) k
unfolding add_to
lookup-add_to [] w k = refl
lookup-add_to (x ∷ ws) w k = elim (Bool-cases (same_key (widget_key x) (widget_key w))) [
  | inl e ↦ rw e (
      lookup-add_to ws w k
      ∙ put_again w x k (lookup ws k) ((same_key_iff (widget_key x) (widget_key w)).0 e))
  | inr e ↦ rw e (put_other w x k (lookup (add_to ws w) k) (lookup ws k) e (lookup-add_to ws w k))
]

lookup-none :
    (ws : List Widget) (w : Widget) (k : Key)
    → All (λ x. widget_key x ≢ widget_key w) ws
    → same_key (widget_key w) k ≡ true
    → lookup ws k ≡ none
lookup-none [] w k h e = refl
lookup-none (x ∷ ws) w k (h, hs) e =
    ground
      (arith, lookup-none ws w k hs e, same_key_iff (widget_key x) k, same_key_iff (widget_key w) k)

-- the change of a removal
abbrev pub dropped : Option Widget → Change
dropped none = keep
dropped (some w) = drop w

All-get :
    (w : Widget) (ws : List Widget) (i : ℕ) (v : Widget)
    → All (λ x. widget_key x ≢ widget_key w) ws
    → get_elem? ws i ≡ some v
    → widget_key v ≢ widget_key w
All-get w [] i v h e = cc
All-get w (x ∷ ws) zero v (h, hs) e = let q : x ≡ v = cc in λ u. h (ap widget_key q ∙ u)
All-get w (x ∷ ws) (suc i) v (h, hs) e = All-get w ws i v hs e

-- the first widget has the key, and the one that is dropped has another
dropped-first :
    (w : Widget) (k : Key) (o : Option Widget) (m : Key → Option Widget)
    → same_key (widget_key w) k ≡ true
    → m k ≡ some w
    → ((v : Widget) → o ≡ some v → widget_key v ≢ widget_key w)
    → apply (dropped o) m k ≡ some w
dropped-first w k none m e f h = f
dropped-first w k (some v) m e f h =
    ground (arith, h v refl, same_key_iff (widget_key v) k, same_key_iff (widget_key w) k)

-- the first widget has another key
dropped-later :
    (o : Option Widget) (k : Key) (m n : Key → Option Widget)
    → m k ≡ n k
    → apply (dropped o) m k ≡ apply (dropped o) n k
dropped-later none k m n e = e
dropped-later (some v) k m n e = rw e refl

lookup-remove_at :
    (i : ℕ) (ws : List Widget) (k : Key)
    → HasDistinctKeys ws
    → lookup (remove_at i ws) k ≡ apply (dropped (get_elem? ws i)) (lookup ws) k
unfolding remove_at
lookup-remove_at i [] k h = refl
lookup-remove_at zero (w ∷ ws) k (h, hs) = elim (Bool-cases (same_key (widget_key w) k)) [
  | inl e ↦ rw e (lookup-none ws w k h e)
  | inr e ↦ rw e refl
]
lookup-remove_at (suc i) (w ∷ ws) k (h, hs) = elim (Bool-cases (same_key (widget_key w) k)) [
  | inl e ↦ rw e (
      sym (
        dropped-first w k (get_elem? ws i) (lookup (w ∷ ws)) e (rw e refl)
          (λ v. All-get w ws i v h)))
  | inr e ↦ rw e (
      lookup-remove_at i ws k hs
      ∙ dropped-later (get_elem? ws i) k (lookup ws) (lookup (w ∷ ws)) (rw e refl))
]

-- the two edits of the page
pub data Edit : Type 0 where
  add : Widget → Edit
  remove : ℕ → Edit

abbrev pub edit : Page → Edit → Page
edit p (add w) = (add_widget p w).0
edit p (remove i) = remove_widget p i

abbrev pub edits : Page → List Edit → Page
edits p [] = p
edits p (e ∷ es) = edits (edit p e) es

-- what an edit does to the map: a built-in view takes no widget
abbrev pub change : Page → Edit → Change
change p (add w) = if is_builtin p then keep else put w
change p (remove i) = dropped (get_elem? p.widgets i)

-- the specification: the same edits, on a map
abbrev pub replay : Page → List Edit → (Key → Option Widget) → Key → Option Widget
replay p [] m = m
replay p (e ∷ es) m = replay (edit p e) es (apply (change p e) m)

edit-builtin : (p : Page) (w : Widget) → is_builtin p ≡ true → (edit p (add w)).widgets ≡ p.widgets
unfolding add_widget is_builtin
edit-builtin p w b = ground arith

edit-add :
    (p : Page) (w : Widget) → is_builtin p ≡ false → (edit p (add w)).widgets ≡ add_to p.widgets w
unfolding add_widget is_builtin
edit-add p w b = ground arith

edit-HasDistinctKeys :
    (p : Page) (e : Edit) → HasDistinctKeys p.widgets → HasDistinctKeys (edit p e).widgets
unfolding remove_widget
edit-HasDistinctKeys p (add w) h = elim (Bool-cases (is_builtin p)) [
  | inl b ↦ subst HasDistinctKeys (sym (edit-builtin p w b)) h
  | inr b ↦ subst HasDistinctKeys (sym (edit-add p w b)) (add_to-HasDistinctKeys p.widgets w h)
]
edit-HasDistinctKeys p (remove i) h = remove_at-HasDistinctKeys i p.widgets h

lookup-edit :
    (p : Page) (e : Edit) (k : Key)
    → HasDistinctKeys p.widgets
    → lookup (edit p e).widgets k ≡ apply (change p e) (lookup p.widgets) k
unfolding remove_widget
lookup-edit p (add w) k h = elim (Bool-cases (is_builtin p)) [
  | inl b ↦ rw (edit-builtin p w b, b) refl
  | inr b ↦ rw (edit-add p w b, b) (lookup-add_to p.widgets w k)
]
lookup-edit p (remove i) k h = lookup-remove_at i p.widgets k h

apply-ext :
    (c : Change) (m n : Key → Option Widget) (k : Key) → m k ≡ n k → apply c m k ≡ apply c n k
apply-ext (put w) m n k e = rw e refl
apply-ext (drop w) m n k e = rw e refl
apply-ext keep m n k e = e

-- The widgets of the page implement a finite map from keys to widgets: from widgets of different keys on,
-- whatever is added and removed, the widget found under each key is the one that the same edits leave in
-- the map. Adding replaces the widget of its key, and removing takes away no widget but the one removed.
pub edits-replay :
    (p : Page) (es : List Edit) (m : Key → Option Widget)
    → HasDistinctKeys p.widgets
    → ((k : Key) → lookup p.widgets k ≡ m k)
    → (k : Key) → lookup (edits p es).widgets k ≡ replay p es m k
edits-replay p [] m h r = r
edits-replay p (e ∷ es) m h r =
    edits-replay (edit p e) es (apply (change p e) m) (edit-HasDistinctKeys p e h)
      (λ k. lookup-edit p e k h ∙ apply-ext (change p e) (lookup p.widgets) m k (r k))
