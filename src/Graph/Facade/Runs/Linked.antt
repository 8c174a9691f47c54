-- ===== src/Graph/Facade/Runs/Linked.antt =====
-- internal/graph/graph.go: any calls keep the graph linked.
use mini_graph_db.Prelude.{ℕ, ◌+◌, ◌^◌, ◌<◌, List, [], ◌∷◌, ◌≡◌, arith, ◌∙◌, none, length}
use mini_graph_db.Prelude.Bytes.{Bytes}
use mini_graph_db.Storage.{Keyspace, ok, ks_catalog, ks_edge, ks_out, ks_in, ks_edge_type}
use mini_graph_db.Storage.Ensures.{Ensures-ok, Ensures-after, Ensures-bind}
use mini_graph_db.Txn.Backend.{Backend}
use mini_graph_db.Graph.Keys.{cat_next_edge, catalog_key, id_key}
use mini_graph_db.Graph.Indexing.{Indexing}
use mini_graph_db.Graph.Store.Links.{IsLinked, IsEdge}
use mini_graph_db.Graph.Store.Reads.{read_counter-view}
use mini_graph_db.Graph.Store.Edges.Delete.{delete_edge-Ensures}
use mini_graph_db.Graph.Store.Edges.Rewrite.{edge_changes-Rewritten}
use mini_graph_db.Graph.Store.Nodes.Delete.{delete_node-Ensures}
use mini_graph_db.Graph.Store.Nodes.Changes.{create_node-NodeWritten, node_changes-NodeWritten}
use mini_graph_db.Graph.Facade
use mini_graph_db.Graph.Records.Ends.{Ends}
use mini_graph_db.Graph.Facade.{write, read, validate_props}
use mini_graph_db.Graph.Facade.Runs.{
  Call, creates_node, updates_node, deletes_node, creates_edge, updates_edge, adds_labels,
  removes_labels, replaces_node_props, deletes_node_props, replaces_edge_props, deletes_edge_props,
  deletes_edge, FitsCall, AllFit, call, run,
}
use mini_graph_db.Graph.Facade.Runs.Sound.{
  IsGraph, write-IsGraph, counted, node_written, edge-Rewritten, after-IsGraph, validated,
  unless_empty-IsGraph, create_edge-Sound, IsGraph-more,
}

module _ (b : Backend) (ix : Indexing b) where
  open b use {Tx, Eng, begin, commit, view, holds, IsOpen, IsReady}

  call-IsGraph :
      (n : ℕ) (e : Eng) (c : Call)
      → IsGraph b ix n e
      → FitsCall c
      → n + 1 < 2 ^ 64
      → IsGraph b ix (n + 1) (call b ix e c)
  unfolding call FitsCall Facade.create_node Facade.update_node_values Facade.delete_node
      Facade.create_edge Facade.update_edge_values Facade.add_labels Facade.remove_labels
      Facade.replace_node_props Facade.delete_node_props Facade.replace_edge_props
      Facade.delete_edge_props Facade.delete_edge
  call-IsGraph n e (creates_node labels props) g fits room = after-IsGraph b ix n e _ g (
      validated b ix n e props _ g λ t s. record {
        holds = λ x d.
            node_written b ix n x.0.id t s x
              ((create_node-NodeWritten b ix t labels props s.opened s.linked).holds x d);
      })
  call-IsGraph n e (updates_node id props) g fits room = after-IsGraph b ix n e _ g (
      unless_empty-IsGraph b ix n props _ _
        (Ensures-after (Facade.get_node b ix e id) λ x. Ensures-ok (IsGraph-more b ix n e g))
        (validated b ix n e props _ g λ t s. record {
          holds = λ x d.
              node_written b ix n id t s x
                ((node_changes-NodeWritten b ix t id props [] s.opened s.linked).0.holds x d);
        }))
  call-IsGraph n e (deletes_node id) g fits room = after-IsGraph b ix n e _ g (
      write-IsGraph b ix n e _ g λ t s.
        Ensures-bind (delete_node-Ensures b ix t id s.opened s.linked fits)
          λ u w. Ensures-ok (counted b ix n t u s w.cut.opened w.cut.linked w.cut.counter))
  call-IsGraph n e (creates_edge from to label props) g fits room = after-IsGraph b ix n e _ g (
      validated b ix n e props _ g
        (create_edge-Sound b ix n from to label props fits.0 fits.1 room))
  call-IsGraph n e (updates_edge id props) g fits room = after-IsGraph b ix n e _ g (
      unless_empty-IsGraph b ix n props _ _
        (Ensures-after (Facade.get_edge b ix e id) λ x. Ensures-ok (IsGraph-more b ix n e g))
        (validated b ix n e props _ g λ t s. record {
          holds = λ x d.
              edge-Rewritten b ix n t s x
                ((edge_changes-Rewritten b ix t id props [] s.opened s.linked fits).0.holds x d);
        }))
  call-IsGraph n e (adds_labels id labels) g fits room = after-IsGraph b ix n e _ g (
      write-IsGraph b ix n e _ g λ t s. record {
        holds = λ x d.
            node_written b ix n id t s x
              ((node_changes-NodeWritten b ix t id [] labels s.opened s.linked).1.holds x d);
      })
  call-IsGraph n e (removes_labels id labels) g fits room = after-IsGraph b ix n e _ g (
      write-IsGraph b ix n e _ g λ t s. record {
        holds = λ x d.
            node_written b ix n id t s x
              ((node_changes-NodeWritten b ix t id [] labels s.opened s.linked).2.holds x d);
      })
  call-IsGraph n e (replaces_node_props id props) g fits room = after-IsGraph b ix n e _ g (
      validated b ix n e props _ g λ t s. record {
        holds = λ x d.
            node_written b ix n id t s x
              ((node_changes-NodeWritten b ix t id props [] s.opened s.linked).3.holds x d);
      })
  call-IsGraph n e (deletes_node_props id names) g fits room = after-IsGraph b ix n e _ g (
      write-IsGraph b ix n e _ g λ t s. record {
        holds = λ x d.
            node_written b ix n id t s x
              ((node_changes-NodeWritten b ix t id [] names s.opened s.linked).4.holds x d);
      })
  call-IsGraph n e (replaces_edge_props id props) g fits room = after-IsGraph b ix n e _ g (
      validated b ix n e props _ g λ t s. record {
        holds = λ x d.
            edge-Rewritten b ix n t s x
              ((edge_changes-Rewritten b ix t id props [] s.opened s.linked fits).1.holds x d);
      })
  call-IsGraph n e (deletes_edge_props id names) g fits room = after-IsGraph b ix n e _ g (
      write-IsGraph b ix n e _ g λ t s. record {
        holds = λ x d.
            edge-Rewritten b ix n t s x
              ((edge_changes-Rewritten b ix t id [] names s.opened s.linked fits).2.holds x d);
      })
  call-IsGraph n e (deletes_edge id) g fits room = after-IsGraph b ix n e _ g (
      write-IsGraph b ix n e _ g λ t s.
        Ensures-bind (delete_edge-Ensures b ix t id s.opened s.linked fits)
          λ u w. Ensures-ok (counted b ix n t u s w.opened w.linked w.counter))

  run-IsGraph :
      (n : ℕ) (e : Eng) (calls : List Call)
      → IsGraph b ix n e
      → AllFit calls
      → n + length calls < 2 ^ 64
      → IsGraph b ix (n + length calls) (run b ix e calls)
  unfolding run AllFit
  run-IsGraph n e [] g fits room = let top : n ≡ n + 0 = omega arith in rw (← top) g
  run-IsGraph n e (c ∷ calls) g fits room =
      let next = call-IsGraph n e c g fits.0 (omega (arith, room)) in
      let rest = run-IsGraph (n + 1) (call b ix e c) calls next fits.1 (omega (arith, room)) in
      let top : n + 1 + length calls ≡ n + length (c ∷ calls) = omega arith in rw (← top) rest

  nothing-IsGraph :
      (e : Eng) → IsReady e → ((ks : Keyspace) (k : Bytes) → holds e ks k ≡ none) → IsGraph b ix 1 e
  nothing-IsGraph e ready empty =
      let (t, begins, o, seen) = b.begin_view e ready in
      let sees : (ks : Keyspace) (k : Bytes) → view t ks k ≡ none =
        λ ks k. seen ks k ∙ empty ks k in
      let none_there : (id : ℕ) (f : Ends) → ¬ IsEdge b t id f =
        λ id f x. cc (x.at, sees ks_edge (id_key id)) in
      record {
        ready = ready;
        sound = λ u at.
            let same : t ≡ u = cc (begins, at) in
            rw (← same) (record {
              opened = o;
              linked = record {
                edges = λ k (v, has). absurd (cc (has, sees ks_edge k));
                joined = λ id x h. absurd (none_there id x h);
                outs = λ k (v, has). absurd (cc (has, sees ks_out k));
                ins = λ k (v, has). absurd (cc (has, sees ks_in k));
                types = λ k (v, has). absurd (cc (has, sees ks_edge_type k));
                below = λ next id x at_next h. absurd (none_there id x h);
              };
              up_to = λ m at_m.
                  let first = read_counter-view b t cat_next_edge o in
                  let missing = sees ks_catalog (catalog_key cat_next_edge []) in
                  let one : m ≡ 1 = cc (first, missing, at_m) in omega (arith, one);
            });
      }

  -- After any sequence of the twelve calls that create, change or delete one node or one edge outside an
  -- explicit transaction, failed ones included, on an engine that holds nothing, a transaction can begin
  -- afterwards, and it sees a linked graph: each edge has its keys in both directions and by type and both its
  -- nodes, and no such key stands without its edge. The ids in the calls are uint64, and there are
  -- fewer calls than 2^64 - 1. Import, explicit transactions and schema calls are not among the calls.
  pub run-IsLinked :
      (e : Eng) (calls : List Call)
      → IsReady e
      → ((ks : Keyspace) (k : Bytes) → holds e ks k ≡ none)
      → AllFit calls
      → 1 + length calls < 2 ^ 64
      → (t : Tx) × (begin (run b ix e calls) ≡ ok t) × IsOpen t × IsLinked b t
  run-IsLinked e calls ready empty fits room =
      let g = run-IsGraph 1 e calls (nothing-IsGraph e ready empty) fits room in
      let (t, begins, o, seen) = b.begin_view (run b ix e calls) g.ready in
      (t, begins, o, (g.sound t begins).linked)
