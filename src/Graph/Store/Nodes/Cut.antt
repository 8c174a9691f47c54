-- ===== src/Graph/Store/Nodes/Cut.antt =====
-- internal/storage/graphstore/store.go: the graph without a node and its edges.
use mini_graph_db.Prelude.{
  ℕ, ◌^◌, ◌<◌, true, false, none, List, [], ◌∷◌, ◌≡◌, ◌≢◌, refl, sym, arith, ◌∙◌, ◌==◌, nat_eq,
  Bool-cases, inl, inr,
}
use mini_graph_db.Prelude.Bytes.{Bytes, bytes_eq, bytes_beq_iff}
use mini_graph_db.Storage.{
  ks_node, ks_edge, ks_out, ks_in, ks_edge_type, ks_catalog, ks_label, ks_prop,
}
use mini_graph_db.Storage.Ensures.{Ensures, Ensures-ok, Ensures-bind}
use mini_graph_db.Txn.Backend.{Backend}
use mini_graph_db.Graph.Keys.{id_key, cat_next_edge}
use mini_graph_db.Graph.Names.{read_counter}
use mini_graph_db.Graph.Records.Ends.{Ends}
use mini_graph_db.Graph.Indexing.{Has, Kept, NoMore, is_write_count, Indexing}
use mini_graph_db.Graph.Store.{delete_edges, contains}
use mini_graph_db.Graph.Store.Frames.{Written}
use mini_graph_db.Graph.Store.Links.{
  IsEdge, IsEdge-seen, IsEdge-unique, IsLinked, SameEdges, Has-without,
}
use mini_graph_db.Graph.Store.Links.Writes.{SameEdges-IsLinked}
use mini_graph_db.Graph.Store.Reads.{read_counter-same, Kept-SameGraph, Kept-counter, Kept-IsLinked}
use mini_graph_db.Graph.Store.Edges.Delete.{delete_edge-Ensures}
use mini_graph_db.Graph.Store.Scans.{HoldsId}
use mini_graph_db.Graph.Store.Scans.Incident.{Touches, IsIncident}
use mini_graph_db.Graph.Keys.Apart.{id_key-inj}

own_id : (j i : ℕ) → (j == i) ≡ true → j ≡ i
own_id j i h = ground (arith, h)

other_bytes : (j k : Bytes) → j ≢ k → (j == k) ≡ false
other_bytes j k apart = ground (arith, bytes_beq_iff j k, apart)

module _ (b : Backend) (ix : Indexing b) where
  open b use {Tx, view, IsOpen}

  -- The graph without the edges of a list, or without none of those seen before.
  pub record AllGone (t u : Tx) (seen eids : List ℕ) : Type 0 where
    pub opened : IsOpen u
    pub linked : IsLinked b u
    pub gone :
        (i : ℕ) (f : Ends) → HoldsId i eids → contains (λ x. x == i) seen ≡ false → ¬ IsEdge b u i f
    pub others :
        (i : ℕ) (f : Ends) → contains (λ x. x == i) eids ≡ false → IsEdge b t i f → IsEdge b u i f
    pub back : (i : ℕ) (f : Ends) → IsEdge b u i f → IsEdge b t i f
    pub nodes : (k : Bytes) → view u ks_node k ≡ view t ks_node k
    pub counter : read_counter b u cat_next_edge ≡ read_counter b t cat_next_edge
    pub records :
        (i : ℕ)
        → i < 2 ^ 64
        → contains (λ x. x == i) eids ≡ false
        → view u ks_edge (id_key i) ≡ view t ks_edge (id_key i)
    pub labels : (k : Bytes) → view u ks_label k ≡ view t ks_label k
    pub names : (k : Bytes) → is_write_count k ≡ false → view u ks_catalog k ≡ view t ks_catalog k
    pub less : NoMore b ks_prop t u

  pub delete_edges-AllGone :
      (t : Tx) (seen eids : List ℕ)
      → IsOpen t
      → IsLinked b t
      → ((i : ℕ) → HoldsId i eids → i < 2 ^ 64)
      → Ensures (delete_edges b ix t seen eids) (λ u. AllGone t u seen eids)
  unfolding delete_edges contains
  delete_edges-AllGone t seen [] o l fits = Ensures-ok (record {
    opened = o;
    linked = l;
    gone = λ i f h. absurd (cc (h));
    others = λ i f h x. x;
    back = λ i f x. x;
    nodes = λ k. refl;
    counter = refl;
    records = λ i small h. refl;
    labels = λ k. refl;
    names = λ k h. refl;
    less = λ j h. h;
  })
  delete_edges-AllGone t seen (eid ∷ eids) o l fits =
      elim (Bool-cases (contains (λ x. x == eid) seen)) [
        | inl old ↦
            let later = delete_edges-AllGone t seen eids o l (λ i h. fits i (ground (arith, h))) in
            rw (old, delete_edges)
              record {
                holds = λ u done.
                    let r = later.holds u done in
                    record {
                      opened = r.opened;
                      linked = r.linked;
                      gone = λ i f h new. r.gone i f (ground (arith, h, old, new)) new;
                      others = λ i f h x. r.others i f (ground (arith, h)) x;
                      back = r.back;
                      nodes = r.nodes;
                      counter = r.counter;
                      records = λ i small h. r.records i small (ground (arith, h));
                      labels = r.labels;
                      names = r.names;
                      less = r.less;
                    };
              }
        | inr new ↦
            rw (new, delete_edges)
              (Ensures-bind (delete_edge-Ensures b ix t eid o l (fits eid (ground arith))) λ v d.
                record {
                  holds = λ u done.
                      let r =
                        (delete_edges-AllGone v (eid ∷ seen) eids d.opened d.linked
                            (λ i h. fits i (ground (arith, h)))).holds
                          u done in
                      record {
                        opened = r.opened;
                        linked = r.linked;
                        gone = λ i f h fresh. elim (Bool-cases (eid == i)) [
                          | inl own ↦ λ x. d.gone f (r.back eid f (rw (own_id eid i own) x))
                          | inr other ↦
                              r.gone i f (ground (arith, h, other)) (ground (arith, fresh, other))
                        ];
                        others = λ i f h x.
                            r.others i f (ground (arith, h))
                              (d.others i f (λ own. absurd (ground (arith, own, h))) x);
                        back = λ i f x. d.back i f (r.back i f x);
                        nodes = λ k. r.nodes k ∙ d.nodes k;
                        counter = r.counter ∙ d.counter;
                        records = λ i small h.
                            r.records i small (ground (arith, h))
                            ∙ d.tables.edges (id_key i)
                            ∙ rw
                                (other_bytes (id_key eid) (id_key i) (λ same.
                                  let own = id_key-inj eid i (fits eid (ground arith)) small same in
                                  absurd (ground (arith, own, h))))
                                refl;
                        labels = λ k. r.labels k ∙ d.labels k;
                        names = λ k h. r.names k h ∙ d.names k h;
                        less = λ j h. r.less j (d.entries.3 j h);
                      };
                })
      ]

  -- The graph without a node and its edges.
  pub record Cut (t u : Tx) (id : ℕ) : Type 0 where
    pub opened : IsOpen u
    pub linked : IsLinked b u
    pub absent : view u ks_node (id_key id) ≡ none
    pub others : (i : ℕ) (f : Ends) → IsEdge b t i f → ¬ Touches f id → IsEdge b u i f
    pub back : (i : ℕ) (f : Ends) → IsEdge b u i f → IsEdge b t i f × (¬ Touches f id)
    pub nodes : (k : Bytes) → id_key id ≢ k → view u ks_node k ≡ view t ks_node k
    pub counter : read_counter b u cat_next_edge ≡ read_counter b t cat_next_edge

  -- The deletion of a node that no edge touches.
  alone-Cut :
      (t u : Tx) (id : ℕ)
      → IsOpen t
      → IsLinked b t
      → id < 2 ^ 64
      → ((i : ℕ) (f : Ends) → IsEdge b t i f → ¬ Touches f id)
      → Written b t ks_node (id_key id) none u
      → Cut t u id
  alone-Cut t u id o l fits alone (ou, w) =
      let s : SameEdges b t u = record {
        edges = w ks_edge;
        outs = w ks_out;
        ins = w ks_in;
        types = w ks_edge_type;
      } in
      let counter = read_counter-same b t u cat_next_edge o ou (w ks_catalog _) in
      let stays : (n : ℕ)
          → n < 2 ^ 64
          → n ≢ id
          → Has b t ks_node (id_key n)
          → Has b u ks_node (id_key n) =
        λ n small apart.
          Has-without b t u ks_node (id_key id) (id_key n) (w ks_node)
            (λ same. apart (sym (id_key-inj id n fits small same))) in
      record {
        opened = ou;
        linked =
            SameEdges-IsLinked b t u s
              (λ i f x j. (
                stays f.from x.fits.from_fits (λ own. alone i f x (inl own)) j.from_node,
                stays f.to x.fits.to_fits (λ own. alone i f x (inr own)) j.to_node,
              ))
              (λ next n at all. all next (sym counter ∙ at)) l;
        absent = w ks_node (id_key id) ∙ rw ((bytes_beq_iff (id_key id) (id_key id)).1 refl) refl;
        others = λ i f x apart. IsEdge-seen b t u s.edges i f x;
        back = λ i f x. let y = IsEdge-seen b u t (λ k. sym (s.edges k)) i f x in (y, alone i f y);
        nodes = λ k apart. w ks_node k ∙ rw (other_bytes (id_key id) k apart) refl;
        counter = counter;
      }

  pub not_listed :
      (t : Tx) (id : ℕ) (eids : List ℕ)
      → IsIncident b ix t id eids
      → (i : ℕ) (f : Ends) → IsEdge b t i f
      → ¬ Touches f id
      → contains (λ x. x == i) eids ≡ false
  not_listed t id eids inc i f x apart = elim (Bool-cases (contains (λ x. x == i) eids)) [
    | inl listed ↦
        let (f', y, touches) = inc.sound i listed in
        let same : f' ≡ f = IsEdge-unique b t i f' f y x in absurd (apart (rw (← same) touches))
    | inr new ↦ new
  ]

  -- Deleted edges and keys aside come first.
  Cut-behind :
      (t t1 t2 u : Tx) (id : ℕ) (eids : List ℕ)
      → IsIncident b ix t id eids
      → AllGone t t1 [] eids
      → Kept b t1 t2
      → Cut t2 u id
      → Cut t u id
  Cut-behind t t1 t2 u id eids inc r k g =
      let s = Kept-SameGraph b t1 t2 k in
      record {
        opened = g.opened;
        linked = g.linked;
        absent = g.absent;
        others = λ i f x apart.
            g.others i f
              (IsEdge-seen b t1 t2 s.rest.edges i f
                (r.others i f (not_listed t id eids inc i f x apart) x))
              apart;
        back = λ i f x.
            let (y, apart) = g.back i f x in
            (r.back i f (IsEdge-seen b t2 t1 (λ j. sym (s.rest.edges j)) i f y), apart);
        nodes = λ j apart. g.nodes j apart ∙ s.nodes j ∙ r.nodes j;
        counter = g.counter ∙ Kept-counter b t1 t2 r.opened k ∙ r.counter;
      }

  pub Kept-Cut :
      (t t1 t5 u : Tx) (id : ℕ) (eids : List ℕ)
      → id < 2 ^ 64
      → IsIncident b ix t id eids
      → AllGone t t1 [] eids
      → Kept b t1 t5
      → Written b t5 ks_node (id_key id) none u
      → Cut t u id
  Kept-Cut t t1 t5 u id eids fits inc r k w =
      let s = Kept-SameGraph b t1 t5 k in
      Cut-behind t t1 t5 u id eids inc r k (
        alone-Cut t5 u id k.opened (Kept-IsLinked b t1 t5 r.opened k r.linked) fits
          (λ i f x touches.
            let y = IsEdge-seen b t5 t1 (λ j. sym (s.rest.edges j)) i f x in
            r.gone i f (inc.complete i f (r.back i f y) touches) (unfold contains in refl) y)
          w)
