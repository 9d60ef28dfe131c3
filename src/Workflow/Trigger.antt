-- ===== src/Workflow/Trigger.antt =====
-- The trigger that is saved with a workflow.
use socblitz.Common.{
  ℕ, String, ◌≡◌, refl, ◌≢◌, Bool, true, false, not, ◌&&◌, some, List, [], ◌∷◌, ◌++◌, eqb, codes,
  has_prefix, find?, All, arith,
}
use socblitz.Common.Json.{end}
use socblitz.Workflow.{Node, to_next_dot, second_part, kind_of, is_trigger, derive_trigger}

abbrev pub dot_free : List ℕ → Bool
dot_free [] = true
dot_free (c ∷ cs) = not (eqb c b'.') && dot_free cs

to_next_dot_all : (cs : List ℕ) → dot_free cs ≡ true → to_next_dot cs ≡ cs
unfolding to_next_dot
to_next_dot_all [] h = refl
to_next_dot_all (c ∷ cs) h = ground (arith, to_next_dot_all cs)

kind_of-trigger :
    (type : String) (kind : List ℕ)
    → codes type ≡ codes "trigger." ++ kind
    → kind ≢ []
    → dot_free kind ≡ true
    → kind_of type ≡ kind
unfolding kind_of second_part
kind_of-trigger type [] e n d = absurd (n refl)
kind_of-trigger type (c ∷ cs) e n d = rw (e, to_next_dot_all (c ∷ cs) d) refl

find_first :
    (xs ys : List Node) (n : Node)
    → All (λ m. is_trigger m ≡ false) xs
    → is_trigger n ≡ true
    → find? is_trigger (xs ++ n ∷ ys) ≡ some n
find_first [] ys n h t = rw t refl
find_first (x ∷ xs) ys n (h, hs) t = rw h (find_first xs ys n hs t)

has_prefix-append : (ps ks : List ℕ) → has_prefix (ps ++ ks) ps ≡ true
has_prefix-append [] ks = refl
has_prefix-append (p ∷ ps) ks = ground (arith, has_prefix-append ps ks)

-- The first node on the canvas whose type is "trigger." and a kind without a full stop gives the
-- trigger: its kind and its configuration, whatever stands behind it.
pub derive_trigger-first :
    (xs ys : List Node) (n : Node) (kind : List ℕ)
    → All (λ m. is_trigger m ≡ false) xs
    → codes n.type ≡ codes "trigger." ++ kind
    → kind ≢ []
    → dot_free kind ≡ true
    → derive_trigger (xs ++ n ∷ ys) ≡ record { trigger_type = kind; trigger_config = n.config }
unfolding derive_trigger
derive_trigger-first xs ys n kind h e ne d =
    let t : is_trigger n ≡ true = rw e (has_prefix-append (codes "trigger.") kind) in
    rw (find_first xs ys n h t, kind_of-trigger n.type kind e ne d) refl

-- Without a trigger on the canvas the workflow is started by hand, with no configuration.
pub derive_trigger-none :
    (nodes : List Node)
    → All (λ m. is_trigger m ≡ false) nodes
    → derive_trigger nodes ≡ record { trigger_type = codes "manual"; trigger_config = end }
unfolding derive_trigger
derive_trigger-none [] h = refl
derive_trigger-none (n ∷ ns) (h, hs) = rw h (derive_trigger-none ns hs)
