-- ===== src/CustomDashboard/Widgets.antt =====
-- The list of widgets under adding and removing.
use socblitz.Common.{
  ℕ, zero, suc, ◌≡◌, refl, sym, ap, ◌≢◌, ◌↔◌, Bool, true, false, not, inl, inr, Bool-cases, List,
  [], ◌∷◌, ◌++◌, filter, filter-append, append-nil, filter-All, All, All-append, All-map,
  All-filter, get_elem?, ltb, if◌then◌else◌, arith,
}
use socblitz.CustomDashboard.{Widget, widget_key, same_key, add_to, remove_at}

pub same_key_iff : (a b : List ℕ) → (same_key a b ≡ true) ↔ (a ≡ b)
same_key_iff [] [] = (λ _. refl, λ _. refl)
same_key_iff [] (y ∷ b) = ground arith
same_key_iff (x ∷ a) [] = ground arith
same_key_iff (x ∷ a) (y ∷ b) = ground (arith, same_key_iff a b)

abbrev differs : Widget → Widget → Bool
differs w x = not (same_key (widget_key x) (widget_key w))

differs-ne : (w x : Widget) → differs w x ≡ true → widget_key x ≢ widget_key w
differs-ne w x h = ground (arith, same_key_iff (widget_key x) (widget_key w))

-- No two widgets of the list have the same key.
abbrev pub HasDistinctKeys : List Widget → Type 0
HasDistinctKeys [] = Unit
HasDistinctKeys (w ∷ ws) = All (λ x. widget_key x ≢ widget_key w) ws × HasDistinctKeys ws

module _ (p : Widget → Bool) where
  filter-HasDistinctKeys : (ws : List Widget) → HasDistinctKeys ws → HasDistinctKeys (filter p ws)
  filter-HasDistinctKeys [] h = tt
  filter-HasDistinctKeys (w ∷ ws) (h, k) = elim (Bool-cases (p w)) [
    | inl e ↦ rw e (All-filter _ p ws h, filter-HasDistinctKeys ws k)
    | inr e ↦ rw e (filter-HasDistinctKeys ws k)
  ]

HasDistinctKeys-concat :
    (ws : List Widget) (w : Widget)
    → HasDistinctKeys ws
    → All (λ x. widget_key x ≢ widget_key w) ws
    → HasDistinctKeys (ws ++ w ∷ [])
HasDistinctKeys-concat [] w h k = (tt, tt)
HasDistinctKeys-concat (x ∷ ws) w (h, hs) (k, ks) =
    (All-append _ ws (w ∷ []) h ((λ e. k (sym e)), tt), HasDistinctKeys-concat ws w hs ks)

-- Adding a widget to widgets of different keys leaves them of different keys, with the new one last.
pub add_to-HasDistinctKeys :
    (ws : List Widget) (w : Widget) → HasDistinctKeys ws → HasDistinctKeys (add_to ws w)
unfolding add_to
add_to-HasDistinctKeys ws w h =
    HasDistinctKeys-concat (filter (differs w) ws) w (filter-HasDistinctKeys (differs w) ws h)
      (All-map (differs-ne w) _ (filter-All (differs w) ws))

filter-filter : (p : Widget → Bool) (ws : List Widget) → filter p (filter p ws) ≡ filter p ws
filter-filter p [] = refl
filter-filter p (w ∷ ws) = elim (Bool-cases (p w)) [
  | inl e ↦ rw e (rw e (ap (λ xs. w ∷ xs) (filter-filter p ws)))
  | inr e ↦ rw e (filter-filter p ws)
]

differs_self : (w : Widget) → differs w w ≡ false
differs_self w = ground (arith, same_key_iff (widget_key w) (widget_key w))

-- Adding the same widget a second time changes nothing.
pub add_to-add_to : (ws : List Widget) (w : Widget) → add_to (add_to ws w) w ≡ add_to ws w
unfolding add_to
add_to-add_to ws w =
    rw
      (
        filter-append (differs w) (filter (differs w) ws) (w ∷ []),
        filter-filter (differs w) ws,
        differs_self w,
        append-nil (filter (differs w) ws),
      )
      refl

-- What stands at each place after the widget at place i is removed: the places before i keep their
-- widget, and from i on each place has the widget of the next one. Out of range nothing changes.
pub get_elem?-remove_at :
    (i j : ℕ) (ws : List Widget)
    → get_elem? (remove_at i ws) j ≡ (if ltb j i then get_elem? ws j else get_elem? ws (suc j))
unfolding remove_at
get_elem?-remove_at i j [] = ground arith
get_elem?-remove_at zero j (w ∷ ws) = ground arith
get_elem?-remove_at (suc i) zero (w ∷ ws) = ground arith
get_elem?-remove_at (suc i) (suc j) (w ∷ ws) = ground (arith, get_elem?-remove_at i j ws)

All-remove_at : (P : Widget → Type 0) (i : ℕ) (ws : List Widget) → All P ws → All P (remove_at i ws)
unfolding remove_at
All-remove_at P i [] h = tt
All-remove_at P zero (w ∷ ws) (h, k) = k
All-remove_at P (suc i) (w ∷ ws) (h, k) = (h, All-remove_at P i ws k)

-- Removing a widget from widgets of different keys leaves them of different keys.
pub remove_at-HasDistinctKeys :
    (i : ℕ) (ws : List Widget) → HasDistinctKeys ws → HasDistinctKeys (remove_at i ws)
unfolding remove_at
remove_at-HasDistinctKeys i [] h = tt
remove_at-HasDistinctKeys zero (w ∷ ws) (h, k) = k
remove_at-HasDistinctKeys (suc i) (w ∷ ws) (h, k) =
    (All-remove_at _ i ws h, remove_at-HasDistinctKeys i ws k)
