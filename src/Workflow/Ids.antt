-- ===== src/Workflow/Ids.antt =====
-- The ids of dropped nodes.
use socblitz.Common.{
  ℕ, ◌+◌, ◌≤◌, ◌<◌, String, ◌≡◌, refl, ◌≢◌, List, [], ◌∷◌, ◌++◌, All, All-append, decimal,
  decimal_injective, decimal-All_digits, IsDigit, truthy, Bool-cases, inl, inr, ◌⊎◌, arith, sym,
  ◌∙◌, ap,
}
use socblitz.Workflow.{Node, NodeType, Builder, node_id, drop_node}

-- A separator that is no digit is found at one place only.
pub split_digits :
    (s : ℕ) (a a' b b' : List ℕ)
    → 58 ≤ s
    → All IsDigit a
    → All IsDigit a'
    → a ++ s ∷ b ≡ a' ++ s ∷ b'
    → (a ≡ a') × (b ≡ b')
split_digits s [] [] b b' h k k' e = (refl, cc)
split_digits s [] (y ∷ a') b b' h k k' e = ground arith
split_digits s (x ∷ a) [] b b' h k k' e = ground arith
split_digits s (x ∷ a) (y ∷ a') b b' h k k' e = ground (arith, split_digits s a a' b b')

abbrev behind : List ℕ → List ℕ
behind [] = []
behind (x ∷ xs) = xs

-- Two ids are the same only if they were made at the same instant with the same counter.
pub node_id_injective :
    (now now' k k' : ℕ) → node_id now k ≡ node_id now' k' → (now ≡ now') × (k ≡ k')
unfolding node_id
node_id_injective now now' k k' e =
    let (p, q) =
      split_digits 95 (decimal now) (decimal now') (decimal k) (decimal k') (omega arith)
        (decimal-All_digits now) (decimal-All_digits now') (ap behind e) in
    (decimal_injective now now' p, decimal_injective k k' q)

-- An id of before: made earlier than the page was loaded, or with a value that the page's counter
-- has had.
pub record IsEarlier (start counter : ℕ) (id : List ℕ) : Type 0 where
  pub now : ℕ
  pub count : ℕ
  pub before : (now < start) ⊎ (count ≤ counter)
  pub made : id ≡ node_id now count

later :
    (start now counter : ℕ) (id : List ℕ)
    → start ≤ now
    → IsEarlier start counter id
    → id ≢ node_id now (counter + 1)
later start now counter id h m e =
    let (p, q) = node_id_injective m.now now m.count (counter + 1) (sym m.made ∙ e) in
    elim m.before [ inl early ↦ omega (arith, p, q, h, early) | inr low ↦ omega (arith, p, q, low) ]

up :
    (start counter : ℕ) (id : List ℕ)
    → IsEarlier start counter id
    → IsEarlier start (counter + 1) id
up start counter id m = record {
  now = m.now;
  count = m.count;
  before = elim m.before [ inl early ↦ inl early | inr low ↦ inr (omega (arith, low)) ];
  made = m.made;
}

-- no two nodes have the same id
abbrev pub HasDistinctIds : List Node → Type 0
HasDistinctIds [] = Unit
HasDistinctIds (n ∷ ns) = All (λ (m : Node). n.id ≢ m.id) ns × HasDistinctIds ns

-- The ids are distinct, and were all made before: while the page was loaded, or by its counter.
abbrev pub HasFreshIds : ℕ → Builder → Type 0
HasFreshIds start b =
    HasDistinctIds b.nodes × All (λ (n : Node). IsEarlier start b.id_counter n.id) b.nodes

distinct_snoc :
    (ns : List Node) (n : Node)
    → HasDistinctIds ns
    → All (λ (m : Node). m.id ≢ n.id) ns
    → HasDistinctIds (ns ++ n ∷ [])
distinct_snoc [] n h k = (tt, tt)
distinct_snoc (m ∷ ns) n (p, h) (q, k) =
    (All-append _ ns (n ∷ []) p (q, tt), distinct_snoc ns n h k)

All-mono : (P Q : Node → Type 0) → ((n : Node) → P n → Q n) → (ns : List Node) → All P ns → All Q ns
All-mono P Q f [] h = tt
All-mono P Q f (n ∷ ns) (p, h) = (f n p, All-mono P Q f ns h)

-- A drop, at a time that is not before the loading of the page, keeps the ids distinct: no node of a
-- workflow that was made earlier, and no node that was dropped before, also at the same instant,
-- has the id of the new one.
pub drop_node-HasFreshIds :
    (start now : ℕ) (catalog : List NodeType) (type label : String) (b : Builder)
    → start ≤ now
    → HasFreshIds start b
    → HasFreshIds start (drop_node catalog now type label b)
unfolding drop_node
drop_node-HasFreshIds start now catalog type label b h (d, m) = elim (Bool-cases (truthy type)) [
  | inr e ↦ rw e (d, m)
  | inl e ↦ rw e (
    distinct_snoc b.nodes _ d
        (All-mono _ _ (λ n q. later start now b.id_counter n.id h q) b.nodes m),
    All-append _ b.nodes _ (All-mono _ _ (λ n q. up start b.id_counter n.id q) b.nodes m) (
      record { now = now; count = b.id_counter + 1; before = inr (omega arith); made = refl },
      tt,
    ),
  )
]
