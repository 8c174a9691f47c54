-- ===== src/Graph/Facade/Reads.antt =====
-- internal/graph/graph.go and traverse.go: the queries outside an explicit transaction. Those that return
-- no error return nothing where there is one.
use mini_graph_db.Prelude.{ℕ, List, []}
use mini_graph_db.Prelude.Bytes.{Bytes}
use mini_graph_db.Storage.{Result, ok, err, ◌>>=◌}
use mini_graph_db.Txn.Backend.{Backend}
use mini_graph_db.Value.{Value}
use mini_graph_db.Graph.{Node, Edge}
use mini_graph_db.Graph.Indexing.{Indexing}
use mini_graph_db.Graph.Queries
use mini_graph_db.Graph.Queries.{GraphStats}
use mini_graph_db.Graph.Traverse
use mini_graph_db.Graph.Traverse.{Neighbor, check_depth}
use mini_graph_db.Graph.Facade.{read}

abbrev pub or_nothing : {A : Type 0} → A → Result A → A
or_nothing nothing (ok a) = a
or_nothing nothing (err e) = nothing

module _ (b : Backend) (ix : Indexing b) where
  open b use {Eng}

  unfoldable pub nodes_by_label : Eng → Bytes → List Node
  nodes_by_label e label = or_nothing [] (read b ix e (λ t. Queries.nodes_by_label b ix t label))

  unfoldable pub nodes_by_value : Eng → Bytes → Value → List Node
  nodes_by_value e key val =
      or_nothing [] (read b ix e (λ t. Queries.nodes_by_prop_eq b ix t key val))

  unfoldable pub all_nodes : Eng → List Node
  all_nodes e = or_nothing [] (read b ix e (λ t. Queries.all_nodes b ix t))

  unfoldable pub all_edges : Eng → List Edge
  all_edges e = or_nothing [] (read b ix e (λ t. Queries.all_edges b ix t))

  unfoldable pub edges_between : Eng → (from to : ℕ) → Result (List Edge)
  edges_between e from to = read b ix e (λ t. Queries.edges_between b ix t from to)

  unfoldable pub edges_by_label : Eng → Bytes → List Edge
  edges_by_label e label = or_nothing [] (read b ix e (λ t. Queries.edges_by_label b ix t label))

  unfoldable pub stats : Eng → GraphStats
  stats e =
      or_nothing (record { nodes = 0; edges = 0; labels = [] })
        (read b ix e (λ t. Queries.graph_stats b ix t))

  unfoldable pub dfs : Eng → (start depth : ℕ) → Result (List Neighbor)
  dfs e start depth = do _ ← check_depth depth; read b ix e (λ t. Traverse.dfs b ix t start depth)
