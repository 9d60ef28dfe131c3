-- ===== src/Server/Walk/Visits.antt =====
-- What the walk through a workflow visits.
use socblitz.Common.{
  ℕ, zero, suc, String, Bool, true, not, ◌&&◌, ◌||◌, ◌==◌, ◌≡◌, refl, ap, eq_refl, Option, some,
  List, [], ◌∷◌, ◌++◌, any, all, length, arith, Option-cases, inl, inr,
}
use socblitz.Server.Walk.{
  Node, Edge, Result, Entry, entries, contains, followers, round, walk, as_log, walk_from,
  walk_among, execute_workflow, find_start_node,
}
use socblitz.Server.Walk.Bounds.{walk_from-returns}

-- the entries are of nodes that were not visited, and each of another
abbrev pub all_new : List String → List Entry → Bool
all_new visited [] = true
all_new visited (e ∷ es) = not (contains e.node.id visited) && all_new (e.node.id ∷ visited) es

-- a node was visited before or is logged
abbrev pub is_covered : List String → List Entry → Node → Bool
is_covered visited es n = contains n.id visited || any (λ e. e.node.id == n.id) es

covered_first :
    (visited : List String) (e : Entry) (es : List Entry) (ns : List Node)
    → all (is_covered (e.node.id ∷ visited) es) ns ≡ all (is_covered visited (e ∷ es)) ns
covered_first visited e es [] = refl
covered_first visited e es (n ∷ ns) = ground (arith, covered_first visited e es ns)

all-append : (p : Node → Bool) (xs ys : List Node) → all p (xs ++ ys) ≡ (all p xs && all p ys)
all-append p [] ys = refl
all-append p (x ∷ xs) ys = ground (arith, all-append p xs ys)

module _ (executors : String → Option (Node → Result)) (nodes : List Node) (edges : List Edge) where
  walk-all_new :
      (fuel : ℕ) (visited : List String) (queue : List Node) (es : List Entry)
      → walk executors nodes edges fuel visited queue ≡ some es
      → all_new visited es ≡ true
  unfolding walk round
  walk-all_new fuel visited [] es w = ground (arith, w)
  walk-all_new zero visited (n ∷ queue) es w = absurd (cc w)
  walk-all_new (suc fuel) visited (n ∷ queue) [] w = refl
  walk-all_new (suc fuel) visited (n ∷ queue) (e ∷ es) w = ground (
    arith,
    w,
    walk-all_new fuel visited queue (e ∷ es),
    walk-all_new fuel (n.id ∷ visited) (queue ++ followers executors nodes edges n) es,
  )

  walk-closed :
      (holds : Node → Bool) (fuel : ℕ) (visited : List String) (queue : List Node) (es : List Entry)
      → ((m : Node) → holds m ≡ true → all holds (followers executors nodes edges m) ≡ true)
      → all holds queue ≡ true
      → walk executors nodes edges fuel visited queue ≡ some es
      → all (λ e. holds e.node) es ≡ true
  unfolding walk round
  walk-closed holds fuel visited [] es c h w = ground (arith, w)
  walk-closed holds zero visited (n ∷ queue) es c h w = absurd (cc w)
  walk-closed holds (suc fuel) visited (n ∷ queue) [] c h w = refl
  walk-closed holds (suc fuel) visited (n ∷ queue) (e ∷ es) c h w = ground (
    arith,
    w,
    h,
    c n,
    all-append holds queue (followers executors nodes edges n),
    walk-closed holds fuel visited queue (e ∷ es) c,
    walk-closed holds fuel (n.id ∷ visited) (queue ++ followers executors nodes edges n) es c,
  )

  -- every follower of these entries is covered
  abbrev pub is_complete : List String → List Entry → List Entry → Bool
  is_complete visited es fs =
      all (λ e. all (is_covered visited es) (followers executors nodes edges e.node)) fs

  complete_first :
      (visited : List String) (e : Entry) (es fs : List Entry)
      → is_complete (e.node.id ∷ visited) es fs ≡ is_complete visited (e ∷ es) fs
  complete_first visited e es [] = refl
  complete_first visited e es (f ∷ fs) = ground (
    arith,
    complete_first visited e es fs,
    covered_first visited e es (followers executors nodes edges f.node),
  )

  walk-covers :
      (fuel : ℕ) (visited : List String) (queue : List Node) (es : List Entry)
      → walk executors nodes edges fuel visited queue ≡ some es
      → (all (is_covered visited es) queue ≡ true) × (is_complete visited es es ≡ true)
  unfolding walk round
  walk-covers fuel visited [] es w = ground (arith, w)
  walk-covers zero visited (n ∷ queue) es w = absurd (cc w)
  walk-covers (suc fuel) visited (n ∷ queue) [] w =
      ground (arith, w, walk-covers fuel visited queue [])
  walk-covers (suc fuel) visited (n ∷ queue) (e ∷ es) w = ground (
    arith,
    w,
    eq_refl n.id,
    walk-covers fuel visited queue (e ∷ es),
    walk-covers fuel (n.id ∷ visited) (queue ++ followers executors nodes edges n) es,
    all-append (is_covered (n.id ∷ visited) es) queue (followers executors nodes edges n),
    covered_first visited e es queue,
    covered_first visited e es (followers executors nodes edges n),
    complete_first visited e es es,
  )

  -- the walk from a start
  abbrev walked : Node → Option (List Entry)
  walked start = walk executors nodes edges (suc (length edges)) [] (start ∷ [])

  walk_among-walked :
      (ms : List Node) (start : Node)
      → find_start_node ms ≡ some start
      → walk_among executors nodes edges ms ≡ as_log executors nodes edges (walked start)
  unfolding find_start_node
  walk_among-walked [] start h = absurd (cc h)
  walk_among-walked (n ∷ ns) start h = ap (walk_from executors nodes edges) h

  execute-walked :
      (start : Node) (es : List Entry)
      → find_start_node nodes ≡ some start
      → execute_workflow executors nodes edges ≡ some (entries es)
      → walked start ≡ some es
  unfolding execute_workflow
  execute-walked start es h w = ground (arith, w, walk_among-walked nodes start h)

  -- A workflow with a start node has a log, in which no node stands twice, the start node stands, and with each
  -- node all those stand that its result leads to.
  pub execute_workflow-visits :
      (start : Node)
      → find_start_node nodes ≡ some start
      → (es : List Entry) × (execute_workflow executors nodes edges ≡ some (entries es))
        × (all_new [] es ≡ true)
        × (is_covered [] es start ≡ true)
        × (is_complete [] es es ≡ true)
  unfolding execute_workflow
  execute_workflow-visits start h = elim (Option-cases (walked start)) [
    | inl e ↦ absurd (walk_from-returns executors nodes edges (some start) (ground (arith, e)))
    | inr (es, e) ↦ (
      es,
      ground (arith, e, walk_among-walked nodes start h),
      walk-all_new (suc (length edges)) [] (start ∷ []) es e,
      ground (arith, walk-covers (suc (length edges)) [] (start ∷ []) es e),
      (walk-covers (suc (length edges)) [] (start ∷ []) es e).1,
    )
  ]

  -- Only what can be reached from the start node is executed: what holds of the start node, and of all nodes that
  -- the result of a node leads to where it holds of that node, holds of every node of the log.
  pub execute_workflow-closed :
      (holds : Node → Bool) (start : Node) (es : List Entry)
      → find_start_node nodes ≡ some start
      → holds start ≡ true
      → ((m : Node) → holds m ≡ true → all holds (followers executors nodes edges m) ≡ true)
      → execute_workflow executors nodes edges ≡ some (entries es)
      → all (λ e. holds e.node) es ≡ true
  execute_workflow-closed holds start es h s c w =
      walk-closed holds (suc (length edges)) [] (start ∷ []) es c (ground (arith, s))
        (execute-walked start es h w)
