-- ===== src/Server/Walk/Bounds.antt =====
-- How long the walk through a workflow can last.
use socblitz.Common.{
  ℕ, zero, suc, ◌+◌, ◌≤◌, String, false, ◌==◌, ◌≡◌, ◌≢◌, refl, ap, eq_iff, eq_of_==, Option, none,
  some, List, [], ◌∷◌, length, length-append, arith, if◌then◌else◌, Bool-cases, inl, inr,
}
use socblitz.Server.Walk.{
  Node, Edge, Result, contains, next_nodes, node_by_id, put_node, followers, result_of, round, walk,
  walk_from, walk_among, execute_workflow, find_start_node,
}

-- the edges that leave a node
abbrev leaving : String → List Edge → ℕ
leaving id [] = 0
leaving id (e ∷ es) = (if e.source == id then 1 else 0) + leaving id es

-- the edges that leave nodes that were not visited
abbrev pending : List String → List Edge → ℕ
pending visited [] = 0
pending visited (e ∷ es) = (if contains e.source visited then 0 else 1) + pending visited es

length-put_node : (o : Option Node) (ns : List Node) → length (put_node o ns) ≤ suc (length ns)
length-put_node none ns = omega arith
length-put_node (some n) ns = omega arith

length-next_nodes :
    (id : String) (branch : Option String) (nodes : List Node) (edges : List Edge)
    → length (next_nodes id branch nodes edges) ≤ leaving id edges
unfolding next_nodes
length-next_nodes id branch nodes [] = omega arith
length-next_nodes id branch nodes (e ∷ es) = ground (
  arith,
  length-next_nodes id branch nodes es,
  length-put_node (node_by_id nodes e.target) (next_nodes id branch nodes es),
)

pending-visit :
    (id : String) (visited : List String) (edges : List Edge)
    → contains id visited ≡ false
    → pending (id ∷ visited) edges + leaving id edges ≤ pending visited edges
pending-visit id visited [] n = omega arith
pending-visit id visited (e ∷ es) n = elim (Bool-cases (e.source == id)) [
  | inl q ↦ ground (
    arith,
    pending-visit id visited es n,
    q,
    n,
    ap (λ s. contains s visited) (eq_of_== e.source id q),
    eq_iff e.source id,
    eq_iff id e.source,
  )
  | inr q ↦ ground (arith, pending-visit id visited es n, q, eq_iff e.source id, eq_iff id e.source)
]

module _ (executors : String → Option (Node → Result)) (nodes : List Node) (edges : List Edge) where
  length-followers : (n : Node) → length (followers executors nodes edges n) ≤ leaving n.id edges
  unfolding followers
  length-followers n =
      ground (arith, length-next_nodes n.id (result_of executors nodes edges n).branch nodes edges)

  -- one round uses the queue and the edges up
  round-used :
      (visited : List String) (n : Node) (queue : List Node)
      → length (round executors nodes edges visited n queue).queue
          + pending (round executors nodes edges visited n queue).visited edges
        ≤ length queue + pending visited edges
  unfolding round
  round-used visited n queue = elim (Bool-cases (contains n.id visited)) [
    | inl q ↦ ground (arith, q)
    | inr q ↦ ground (
      arith,
      q,
      length-followers n,
      length-append queue (followers executors nodes edges n),
      pending-visit n.id visited edges q,
    )
  ]

  walk-returns :
      (fuel : ℕ) (visited : List String) (queue : List Node)
      → length queue + pending visited edges ≤ fuel
      → walk executors nodes edges fuel visited queue ≢ none
  unfolding walk
  walk-returns fuel visited [] l e = cc e
  walk-returns zero visited (n ∷ queue) l e = absurd (omega (arith, l))
  walk-returns (suc fuel) visited (n ∷ queue) l e = ground (
    arith,
    e,
    walk-returns fuel (round executors nodes edges visited n queue).visited
        (round executors nodes edges visited n queue).queue
        (omega (arith, l, round-used visited n queue)),
  )

  pending-none : (es : List Edge) → pending [] es ≡ length es
  pending-none [] = refl
  pending-none (e ∷ es) = omega (arith, pending-none es)

  pub walk_from-returns : (o : Option Node) → walk_from executors nodes edges o ≢ none
  walk_from-returns none e = cc e
  walk_from-returns (some start) e = ground (
    arith,
    e,
    walk-returns (suc (length edges)) [] (start ∷ []) (omega (arith, pending-none edges)),
  )

  walk_among-returns : (ns : List Node) → walk_among executors nodes edges ns ≢ none
  walk_among-returns [] e = cc e
  walk_among-returns (n ∷ ns) e = walk_from-returns (find_start_node (n ∷ ns)) e

  -- The walk through a workflow ends, whatever its nodes, its edges and the results are, also where the edges
  -- form circles: the loop runs at most once for each edge and once more, and the log is returned.
  pub execute_workflow-returns : execute_workflow executors nodes edges ≢ none
  unfolding execute_workflow
  execute_workflow-returns e = walk_among-returns nodes e
