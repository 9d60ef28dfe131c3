-- ===== src/Workflow/Palette.antt =====
-- What the palette shows under a category.
use socblitz.Common.{
  String, ◌≡◌, sym, ap, ◌∙◌, List, [], ◌∷◌, ◌++◌, ◌==◌, eq_iff, filter, append_assoc, append-nil,
  if◌then◌else◌, arith, inl, inr, Bool-cases,
}
use socblitz.Workflow.{NodeType, Groups, push_group, push_all, grouped}

-- what the palette shows under a category
abbrev pub group_of : String → Groups → List NodeType
group_of c [] = []
group_of c ((d, ns) ∷ gs) = if d == c then ns else group_of c gs

group_of-push_group :
    (c : String) (n : NodeType) (gs : Groups)
    → group_of c (push_group n gs)
      ≡ (if n.category == c then group_of c gs ++ n ∷ [] else group_of c gs)
unfolding push_group
group_of-push_group c n [] = ground arith
group_of-push_group c n ((d, ns) ∷ gs) =
    ground (arith, eq_iff d c, eq_iff d n.category, eq_iff n.category c, group_of-push_group c n gs)

group_of-push_all :
    (c : String) (catalog : List NodeType) (gs : Groups)
    → group_of c (push_all catalog gs) ≡ group_of c gs ++ filter (λ n. n.category == c) catalog
unfolding push_all
group_of-push_all c [] gs = sym (append-nil _)
group_of-push_all c (n ∷ ns) gs = elim (Bool-cases (n.category == c)) [
  | inl e ↦ rw e (
      group_of-push_all c ns (push_group n gs)
      ∙ ap (λ g. g ++ filter (λ m. m.category == c) ns) (rw e at (group_of-push_group c n gs))
      ∙ append_assoc (group_of c gs) (n ∷ []) (filter (λ m. m.category == c) ns))
  | inr e ↦ rw e (
      group_of-push_all c ns (push_group n gs)
      ∙ ap (λ g. g ++ filter (λ m. m.category == c) ns) (rw e at (group_of-push_group c n gs)))
]

abbrev three : Groups
three = ("trigger", []) ∷ ("logic", []) ∷ ("action", []) ∷ []

group_of-three : (c : String) → group_of c three ≡ []
group_of-three c = ground arith

-- Under each category, also one that the catalogue brings besides the three that are there from the
-- start, the palette shows exactly the catalogue's node types of that category, in its order.
pub group_of-grouped :
    (c : String) (catalog : List NodeType)
    → group_of c (grouped catalog) ≡ filter (λ n. n.category == c) catalog
unfolding grouped
group_of-grouped c catalog =
    group_of-push_all c catalog three
    ∙ ap (λ g. g ++ filter (λ m. m.category == c) catalog) (group_of-three c)
