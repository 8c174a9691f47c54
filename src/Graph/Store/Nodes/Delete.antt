-- ===== src/Graph/Store/Nodes/Delete.antt =====
-- internal/storage/graphstore/store.go: `DeleteNode` takes the node, its edges and its keys.
use mini_graph_db.Prelude.{ℕ, ◌^◌, ◌<◌, false, none, List, [], ◌≡◌, ◌≢◌, refl, ◌∙◌, nat_eq, All}
use mini_graph_db.Prelude.Bytes.{Bytes, bytes_eq, bytes_beq}
use mini_graph_db.Storage.{ok, ks_node, ks_edge, ks_catalog, ks_label, ks_prop}
use mini_graph_db.Storage.Ensures.{Ensures, Ensures-bind, Ensures-itself, both-Ensures}
use mini_graph_db.Txn.Backend.{Backend}
use mini_graph_db.Graph.{Node}
use mini_graph_db.Graph.Keys.{id_key, label_key, catalog_key, cat_label}
use mini_graph_db.Graph.Records.Ends.{Ends}
use mini_graph_db.Graph.Indexing.{Only, Counted, NoMore, is_write_count, Indexing}
use mini_graph_db.Graph.Store.{get_node, delete_node}
use mini_graph_db.Graph.Store.Frames.{
  Kept-trans, Written, delete-Written, unindex_labels-Kept, unindex_props-Kept,
}
use mini_graph_db.Graph.Store.Links.{IsEdge, IsLinked}
use mini_graph_db.Graph.Store.Nodes.Unindex.{
  map-All, lookup_name-same, NotUnder, Unlabelled, unindex_labels-Unlabelled, NotUnderProp, Unfiled,
  unindex_props-Unfiled,
}
use mini_graph_db.Graph.Store.Scans.Incident.{Touches, IsIncident, incident_edges-Ensures}
use mini_graph_db.Graph.Store.Nodes.Cut.{AllGone, delete_edges-AllGone, not_listed, Cut, Kept-Cut}

module _ (b : Backend) (ix : Indexing b) where
  open b use {Tx, view, IsOpen}

  -- The node's own keys go, and no others.
  pub record NodeGone (t u : Tx) (id : ℕ) : Type 0 where
    pub cut : Cut b ix t u id
    -- The edges that do not touch the node keep their records.
    pub records :
        (i : ℕ) (f : Ends)
        → IsEdge b t i f
        → ¬ Touches f id
        → view u ks_edge (id_key i) ≡ view t ks_edge (id_key i)
    pub node : Node
    pub read : get_node b ix t id ≡ ok node
    -- Keyspace L has no key of the node under a label of it, and all keys of other nodes.
    pub labels : All (NotUnder b ix t u id) node.labels
    pub other_labels :
        (k : Bytes) → ((lid : ℕ) → label_key lid id ≢ k) → view u ks_label k ≡ view t ks_label k
    -- Keyspace P has no key of the node under a property of it, and no key that was not there.
    pub entries : All (NotUnderProp b ix u id) node.props
    pub less : NoMore b ks_prop t u
    -- It is what the removal of the node from the declared indexes has left.
    pub declared :
        (v : Tx) × (w : Tx) × NoMore b ks_prop t v
        × (ix.unindex_node v node ≡ ok w)
        × ((k : Bytes) → view u ks_prop k ≡ view w ks_prop k)
    -- Keyspace C but for the write count.
    pub names : (k : Bytes) → is_write_count k ≡ false → view u ks_catalog k ≡ view t ks_catalog k

  label_name-aside : (l : Bytes) → is_write_count (catalog_key cat_label l) ≡ false
  unfolding is_write_count catalog_key bytes_beq
  label_name-aside l = refl

  -- The steps of `DeleteNode` behind its reads.
  NodeGone-of :
      (t t1 t2 t3 t4 t5 u : Tx) (id : ℕ) (n : Node) (eids : List ℕ)
      → IsOpen t
      → get_node b ix t id ≡ ok n
      → IsIncident b ix t id eids
      → AllGone b ix t t1 [] eids
      → Unlabelled b ix t1 t2 id n.labels
      → Unfiled b ix t2 t3 id n.props
      → ix.unindex_node t3 n ≡ ok t4
      → Only b ks_prop t3 t4 × NoMore b ks_prop t3 t4
      → Counted b t4 t5
      → Written b t5 ks_node (id_key id) none u
      → Cut b ix t u id
      → NodeGone t u id
  NodeGone-of t t1 t2 t3 t4 t5 u id n eids o read inc r ls ps unindexed un bump (ou, w) cut =
      let props_after : (j : Bytes) → view u ks_prop j ≡ view t4 ks_prop j =
        λ j. w ks_prop j ∙ bump.rest ks_prop j refl in
      let labels_after : (j : Bytes) → view u ks_label j ≡ view t2 ks_label j = λ j.
        w ks_label j
        ∙ bump.rest ks_label j refl
        ∙ un.0.rest ks_label j refl
        ∙ ps.only.rest ks_label j refl in
      let edges_after : (j : Bytes) → view u ks_edge j ≡ view t1 ks_edge j = λ j.
        w ks_edge j
        ∙ bump.rest ks_edge j refl
        ∙ un.0.rest ks_edge j refl
        ∙ ps.only.rest ks_edge j refl
        ∙ ls.only.rest ks_edge j refl in
      record {
        cut = cut;
        records = λ i f x apart.
            edges_after (id_key i)
            ∙ r.records i x.id_fits (not_listed b ix t id eids inc i f x apart);
        node = n;
        read = read;
        labels =
            map-All n.labels
              (λ l under lid at.
                labels_after (label_key lid id)
                ∙ under lid (
                    lookup_name-same b t t1 cat_label l o r.opened (r.names _ (label_name-aside l))
                    ∙ at))
              ls.gone;
        other_labels = λ k h. labels_after k ∙ ls.others k h ∙ r.labels k;
        entries = map-All n.props (λ p gone. props_after _ ∙ un.1 _ gone) ps.gone;
        less = λ j h. props_after j ∙ un.1 j (ps.less j (ls.only.rest ks_prop j refl ∙ r.less j h));
        declared = (
          t3,
          t4,
          λ j h. ps.less j (ls.only.rest ks_prop j refl ∙ r.less j h),
          unindexed,
          props_after,
        );
        names = λ k h.
            w ks_catalog k
            ∙ bump.rest ks_catalog k h
            ∙ un.0.rest ks_catalog k refl
            ∙ ps.only.rest ks_catalog k refl
            ∙ ls.only.rest ks_catalog k refl
            ∙ r.names k h;
      }

  pub delete_node-Ensures :
      (t : Tx) (id : ℕ)
      → IsOpen t
      → IsLinked b t
      → id < 2 ^ 64
      → Ensures (delete_node b ix t id) (λ u. NodeGone t u id)
  unfolding delete_node
  delete_node-Ensures t id o l fits = Ensures-bind (Ensures-itself (get_node b ix t id)) λ n read.
      Ensures-bind (incident_edges-Ensures b ix t id o l fits) λ eids inc.
        Ensures-bind
          (delete_edges-AllGone b ix t [] eids o l
            (λ i h. let (f, x, at) = inc.sound i h in x.id_fits))
          λ t1 r.
            Ensures-bind
              (both-Ensures (unindex_labels-Kept b ix t1 id n.labels r.opened)
                (unindex_labels-Unlabelled b ix t1 id n.labels r.opened))
              λ t2 k2.
                Ensures-bind
                  (both-Ensures (unindex_props-Kept b ix t2 id n.props k2.0.opened)
                    (unindex_props-Unfiled b ix t2 id n.props k2.0.opened))
                  λ t3 k3. Ensures-bind (Ensures-itself (ix.unindex_node t3 n)) λ t4 un.
                    let k4 = ix.unindex_node_kept t3 t4 n k3.0.opened un in
                    Ensures-bind (Ensures-itself (ix.bump_writes t4)) λ t5 bump. record {
                      holds = λ u done.
                          let k5 = ix.bump_writes_kept t4 t5 k4.opened bump in
                          let k = Kept-trans b k2.0 (Kept-trans b k3.0 (Kept-trans b k4 k5)) in
                          let w =
                            (delete-Written b t5 ks_node (id_key id) k5.opened).holds u done in
                          NodeGone-of t t1 t2 t3 t4 t5 u id n eids o read inc r k2.1 k3.1 un
                            (ix.unindex_node_only t3 t4 n k3.0.opened un)
                            (ix.bump_writes_only t4 t5 k4.opened bump) w
                            (Kept-Cut b ix t t1 t5 u id eids fits inc r k w);
                    }

  -- A `DeleteNode` that returns no error takes the node and exactly the edges that start or end at it;
  -- all other nodes and edges keep their records, and the graph stays linked. The node's keys under its
  -- labels in keyspace L go and the keys of other nodes there stay; its keys under its properties in
  -- keyspace P go and none comes there, which is as the removal of the node from the declared indexes
  -- leaves it; keyspace C changes at the write count alone. The transaction is
  -- open and linked, and the id is a uint64.
  pub delete_node-NodeGone :
      (t : Tx) (id : ℕ) (u : Tx)
      → IsOpen t
      → IsLinked b t
      → id < 2 ^ 64
      → delete_node b ix t id ≡ ok u
      → NodeGone t u id
  delete_node-NodeGone t id u o l fits done = (delete_node-Ensures t id o l fits).holds u done
