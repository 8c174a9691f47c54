-- ===== src/Graph/Facade.antt =====
-- internal/graph/graph.go: the calls outside an explicit transaction. Each runs in a transaction of its
-- own, which an error rolls back.
pub mod Runs
pub mod Reads
use mini_graph_db.Prelude.{ℕ, List, [], ◌∷◌}
use mini_graph_db.Prelude.Bytes.{Bytes}
use mini_graph_db.Prelude.Assoc.{Assoc}
use mini_graph_db.Storage.{Result, ok, err, ◌>>=◌, not_found}
use mini_graph_db.Txn.Backend.{Backend}
use mini_graph_db.Value.{Value}
use mini_graph_db.Graph.{Node, Edge}
use mini_graph_db.Graph.Indexing.{Indexing}
use mini_graph_db.Graph.Store
use mini_graph_db.Graph.Store.{check_storable, unless_empty}

unfoldable pub validate_props : Assoc Bytes Value → Result (Unit {0})
validate_props [] = ok tt
validate_props ((name, v) ∷ props) = do _ ← check_storable v; validate_props props

-- `GetNode` and `GetEdge` return false on every error.
abbrev pub or_not_found : {A : Type 0} → Result A → Result A
or_not_found (ok a) = ok a
or_not_found (err e) = err not_found

module _ (b : Backend) (ix : Indexing b) where
  open b use {Tx, Eng, begin, commit}

  unfoldable pub write : {A : Type 0} → Eng → (Tx → Result (A × Tx)) → Result (A × Eng)
  write e fn = do t ← begin e; (a, u) ← fn t; v ← ix.prepare u; e' ← commit v; ok (a, e')

  -- A read-only transaction is rolled back.
  unfoldable pub read : {A : Type 0} → Eng → (Tx → Result A) → Result A
  read e fn = do t ← begin e; fn t

  unfoldable pub get_node : Eng → ℕ → Result Node
  get_node e id = or_not_found (read e (λ t. Store.get_node b ix t id))

  unfoldable pub get_edge : Eng → ℕ → Result Edge
  get_edge e id = or_not_found (read e (λ t. Store.get_edge b ix t id))

  unfoldable pub create_node : Eng → List Bytes → Assoc Bytes Value → Result (Node × Eng)
  create_node e labels props = do
    _ ← validate_props props
    write e (λ t. Store.create_node b ix t labels props)

  unfoldable pub update_node_values : Eng → ℕ → Assoc Bytes Value → Result (Node × Eng)
  update_node_values e id props =
      unless_empty props (do n ← get_node e id; ok (n, e))
        (do _ ← validate_props props; write e (λ t. Store.update_node b ix t id props))

  unfoldable pub delete_node : Eng → ℕ → Result (Unit {0} × Eng)
  delete_node e id = write e (λ t. do u ← Store.delete_node b ix t id; ok (tt, u))

  unfoldable pub create_edge : Eng → (from to : ℕ) → Bytes → Assoc Bytes Value → Result (Edge × Eng)
  create_edge e from to label props = do
    _ ← validate_props props
    write e (λ t. Store.create_edge b ix t from to label props)

  unfoldable pub update_edge_values : Eng → ℕ → Assoc Bytes Value → Result (Edge × Eng)
  update_edge_values e id props =
      unless_empty props (do x ← get_edge e id; ok (x, e))
        (do _ ← validate_props props; write e (λ t. Store.update_edge b ix t id props))

  unfoldable pub add_labels : Eng → ℕ → List Bytes → Result (Node × Eng)
  add_labels e id labels = write e (λ t. Store.add_labels b ix t id labels)

  unfoldable pub remove_labels : Eng → ℕ → List Bytes → Result (Node × Eng)
  remove_labels e id labels = write e (λ t. Store.remove_labels b ix t id labels)

  unfoldable pub replace_node_props : Eng → ℕ → Assoc Bytes Value → Result (Node × Eng)
  replace_node_props e id props = do
    _ ← validate_props props
    write e (λ t. Store.replace_node_props b ix t id props)

  unfoldable pub delete_node_props : Eng → ℕ → List Bytes → Result (Node × Eng)
  delete_node_props e id names = write e (λ t. Store.delete_node_props b ix t id names)

  unfoldable pub replace_edge_props : Eng → ℕ → Assoc Bytes Value → Result (Edge × Eng)
  replace_edge_props e id props = do
    _ ← validate_props props
    write e (λ t. Store.replace_edge_props b ix t id props)

  unfoldable pub delete_edge_props : Eng → ℕ → List Bytes → Result (Edge × Eng)
  delete_edge_props e id names = write e (λ t. Store.delete_edge_props b ix t id names)

  unfoldable pub incident_edges : Eng → ℕ → Result (List ℕ)
  incident_edges e id = read e (λ t. Store.incident_edges b ix t id)

  unfoldable pub delete_edge : Eng → ℕ → Result (Unit {0} × Eng)
  delete_edge e id = write e (λ t. do u ← Store.delete_edge b ix t id; ok (tt, u))
