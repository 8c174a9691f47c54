-- ===== src/Graph/Traverse.antt =====
-- internal/storage/graphstore/traverse.go: `DFS` and the outgoing edges that it follows.
pub mod Reach
use mini_graph_db.Prelude.{
  ℕ, zero, suc, ◌+◌, Bool, true, false, Option, none, some, List, [], ◌∷◌, ◌++◌, ◌==◌, nat_eq, ltb,
  if◌then◌else◌,
}
use mini_graph_db.Prelude.Bytes.{Bytes}
use mini_graph_db.Storage.{Result, ok, err, ◌>>=◌, invalid_argument, ks_out}
use mini_graph_db.Txn.Backend.{Backend}
use mini_graph_db.Graph.{Node}
use mini_graph_db.Graph.Keys.{Adjacent, parse_adj, id_key}
use mini_graph_db.Graph.Indexing.{Indexing}
use mini_graph_db.Graph.Store.{contains, scan_prefix, get_node}
use mini_graph_db.Graph.Queries.{skip_missing}

pub record Neighbor : Type 0 where
  pub node : Node
  pub depth : ℕ

-- `if ok { tos = append(tos, to) }`.
abbrev pub add_to : Option Adjacent → List ℕ → List ℕ
add_to none tos = tos
add_to (some adj) tos = adj.b ∷ tos

unfoldable pub to_ids : List Bytes → List ℕ
to_ids [] = []
to_ids (k ∷ keys) = add_to (parse_adj k) (to_ids keys)

-- A negative depth is refused as 0 is.
abbrev pub check_depth : ℕ → Result (Unit {0})
check_depth depth = if ltb depth 1 then err invalid_argument else ok tt

-- The neighbours that `walk` has appended, and the ids that it has seen.
abbrev pub Walked : Type 0
Walked = List Neighbor × List ℕ

module _ (b : Backend) (ix : Indexing b) where
  open b use {Tx}

  unfoldable pub outgoing : Tx → ℕ → Result (List ℕ)
  outgoing t from = do keys ← scan_prefix b ix t ks_out (id_key from); ok (to_ids keys)

  -- The loop of `walk`, with the call of `walk` inside.
  abbrev pub visit_found :
      (ℕ → List ℕ → Result Walked)
      → (List ℕ → Result Walked)
      → ℕ
      → ℕ
      → List ℕ
      → Option Node
      → Result Walked
  visit_found deeper later next to seen none = later seen
  visit_found deeper later next to seen (some n) = do
    (below, seen1) ← deeper to (to ∷ seen)
    (rest, seen2) ← later seen1
    ok (record { node = n; depth = next } ∷ (below ++ rest), seen2)

  unfoldable pub visit : Tx → (ℕ → List ℕ → Result Walked) → ℕ → List ℕ → List ℕ → Result Walked
  visit t deeper next [] seen = ok ([], seen)
  visit t deeper next (to ∷ tos) seen = elim (contains (λ x. x == to) seen) [
    | true ↦ visit t deeper next tos seen
    | false ↦ do
      o ← skip_missing (get_node b ix t to)
      visit_found deeper (visit t deeper next tos) next to seen o
  ]

  -- `walk` where `left` is `depth - d`.
  unfoldable pub walk : (left : ℕ) → Tx → ℕ → ℕ → List ℕ → Result Walked
  walk zero t id d seen = ok ([], seen)
  walk (suc left) t id d seen = do
    tos ← outgoing t id
    visit t (λ to s. walk left t to (d + 1) s) (d + 1) tos seen

  unfoldable pub dfs : Tx → ℕ → ℕ → Result (List Neighbor)
  dfs t start depth = do
    _ ← check_depth depth
    _ ← get_node b ix t start
    (out, _) ← walk depth t start 0 (start ∷ [])
    ok out
