-- ===== src/Graph/Facade/Runs/Sound.antt =====
-- internal/graph/graph.go: a write outside an explicit transaction keeps the graph in order.
use mini_graph_db.Prelude.{ℕ, ◌+◌, ◌^◌, ◌<◌, ◌≤◌, [], ◌∷◌, ◌≡◌, refl, sym, arith, ◌∙◌}
use mini_graph_db.Prelude.Bytes.{Bytes}
use mini_graph_db.Prelude.Assoc.{Assoc}
use mini_graph_db.Storage.{
  Keyspace, Result, ok, err, ◌>>=◌, ks_catalog, ks_node, ks_edge, ks_out, ks_in, ks_edge_type,
}
use mini_graph_db.Storage.Ensures.{Ensures, Ensures-ok, Ensures-after, Ensures-bind}
use mini_graph_db.Txn.Backend.{Backend}
use mini_graph_db.Value.{Value}
use mini_graph_db.Graph.{Node, Edge}
use mini_graph_db.Graph.Keys.{cat_next_edge}
use mini_graph_db.Graph.Names.{read_counter}
use mini_graph_db.Graph.Indexing.{Indexing, Kept}
use mini_graph_db.Graph.Store.{unless_empty}
use mini_graph_db.Graph.Store.Links.{IsLinked, SameGraph}
use mini_graph_db.Graph.Store.Links.Writes.{SameGraph-IsLinked}
use mini_graph_db.Graph.Store.Reads.{read_counter-same, Kept-IsLinked, Kept-counter}
use mini_graph_db.Graph.Store.Edges.{kept}
use mini_graph_db.Graph.Store.Edges.Create.{create_edge-Ensures}
use mini_graph_db.Graph.Store.Edges.Rewrite.{Rewritten}
use mini_graph_db.Graph.Store.Nodes.Writes.{NodeWritten}
use mini_graph_db.Graph.Store
use mini_graph_db.Graph.Facade.{write, validate_props}
use mini_graph_db.Graph.Facade.Runs.{after}

module _ (b : Backend) (ix : Indexing b) where
  open b use {Tx, Eng, begin, commit, view, holds, IsOpen, IsReady}

  -- The counter of edges, where it can be read, is at most `n`.
  abbrev pub UpTo : Tx → ℕ → Type 0
  UpTo t n = (m : ℕ) → read_counter b t cat_next_edge ≡ ok m → m ≤ n

  pub record Sound (n : ℕ) (t : Tx) : Type 0 where
    pub opened : IsOpen t
    pub linked : IsLinked b t
    pub up_to : UpTo t n

  pub record IsGraph (n : ℕ) (e : Eng) : Type 0 where
    pub ready : IsReady e
    pub sound : (t : Tx) → begin e ≡ ok t → Sound n t

  pub seen-Sound :
      (t u : Tx) (n : ℕ)
      → IsOpen u
      → ((ks : Keyspace) (k : Bytes) → view u ks k ≡ view t ks k)
      → Sound n t
      → Sound n u
  seen-Sound t u n o seen s =
      let counter = read_counter-same b t u cat_next_edge s.opened o (seen ks_catalog _) in
      let graph : SameGraph b t u = record {
        nodes = seen ks_node;
        rest = record {
          edges = seen ks_edge;
          outs = seen ks_out;
          ins = seen ks_in;
          types = seen ks_edge_type;
        };
      } in
      record {
        opened = o;
        linked =
            SameGraph-IsLinked b t u graph (λ next m at all. all next (sym counter ∙ at)) s.linked;
        up_to = λ m at. s.up_to m (sym counter ∙ at);
      }

  commit-IsGraph : (n : ℕ) (t : Tx) → Sound n t → Ensures (commit t) (IsGraph n)
  commit-IsGraph n t s =
      let (e, commits, ready, holds_view) = b.commit_view t s.opened in
      let (u, begins, o, seen) = b.begin_view e ready in
      rw commits (
        Ensures-ok record {
          ready = ready;
          sound = λ v at.
              let same : u ≡ v = cc (begins, at) in
              rw (← same) (seen-Sound t u n o (λ ks k. seen ks k ∙ holds_view ks k) s);
        })

  Kept-Sound : (t u : Tx) (n : ℕ) → Sound n t → Kept b t u → Sound n u
  Kept-Sound t u n s k =
      let counter = Kept-counter b t u s.opened k in
      record {
        opened = k.opened;
        linked = Kept-IsLinked b t u s.opened k s.linked;
        up_to = λ m at. s.up_to m (sym counter ∙ at);
      }

  pub write-IsGraph :
      {A : Type 0} (n : ℕ) (e : Eng) (fn : Tx → Result (A × Tx))
      → IsGraph n e
      → ((t : Tx) → Sound n t → Ensures (fn t) (λ x. Sound (n + 1) x.1))
      → Ensures (write b ix e fn) (λ x. IsGraph (n + 1) x.1)
  unfolding write
  write-IsGraph n e fn g keeps =
      Ensures-bind (record { holds = g.sound })
        λ t s. Ensures-bind (keeps t s) λ x r.
          Ensures-bind (kept b ix x.1 (ix.prepare x.1) (λ v. ix.prepare_kept x.1 v r.opened)) λ v k.
            Ensures-bind (commit-IsGraph (n + 1) v (Kept-Sound x.1 v (n + 1) r k))
              λ e' done. Ensures-ok done

  -- A call that leaves the counter.
  pub counted :
      (n : ℕ) (t u : Tx)
      → Sound n t
      → IsOpen u
      → IsLinked b u
      → read_counter b u cat_next_edge ≡ read_counter b t cat_next_edge
      → Sound (n + 1) u
  counted n t u s o l same = record {
    opened = o;
    linked = l;
    up_to = λ m at. let below = s.up_to m (sym same ∙ at) in omega (arith, below);
  }

  pub node_written :
      (n id : ℕ) (t : Tx) (s : Sound n t) (x : Node × Tx)
      → NodeWritten b ix t x.1 id
      → Sound (n + 1) x.1
  node_written n id t s x w = counted n t x.1 s w.opened w.linked w.counter

  pub edge-Rewritten :
      (n : ℕ) (t : Tx) (s : Sound n t) (x : Edge × Tx) → Rewritten b ix t x.1 → Sound (n + 1) x.1
  edge-Rewritten n t s x w = counted n t x.1 s w.opened w.linked w.counter

  pub IsGraph-more : (n : ℕ) (e : Eng) → IsGraph n e → IsGraph (n + 1) e
  IsGraph-more n e g = record {
    ready = g.ready;
    sound = λ t at.
        let s = g.sound t at in
        record {
          opened = s.opened;
          linked = s.linked;
          up_to = λ m read_m. let below = s.up_to m read_m in omega (arith, below);
        };
  }

  pub after-IsGraph :
      {A : Type 0} (n : ℕ) (e : Eng) (r : Result (A × Eng))
      → IsGraph n e
      → Ensures r (λ x. IsGraph (n + 1) x.1)
      → IsGraph (n + 1) (after e r)
  after-IsGraph n e (ok x) g h = h.holds x refl
  after-IsGraph n e (err x) g h = IsGraph-more n e g

  pub validated :
      {A : Type 0} (n : ℕ) (e : Eng) (props : Assoc Bytes Value) (fn : Tx → Result (A × Tx))
      → IsGraph n e
      → ((t : Tx) → Sound n t → Ensures (fn t) (λ x. Sound (n + 1) x.1))
      → Ensures (validate_props props >>= λ _. write b ix e fn) (λ x. IsGraph (n + 1) x.1)
  validated n e props fn g keeps =
      Ensures-after (validate_props props) λ _. write-IsGraph n e fn g keeps

  pub unless_empty-IsGraph :
      {A : Type 0} (n : ℕ) (props : Assoc Bytes Value) (r r' : Result (A × Eng))
      → Ensures r (λ x. IsGraph (n + 1) x.1)
      → Ensures r' (λ x. IsGraph (n + 1) x.1)
      → Ensures (unless_empty props r r') (λ x. IsGraph (n + 1) x.1)
  unless_empty-IsGraph n [] r r' h h' = h
  unless_empty-IsGraph n (p ∷ props) r r' h h' = h'

  pub create_edge-Sound :
      (n : ℕ) (from to : ℕ) (label : Bytes) (props : Assoc Bytes Value)
      → from < 2 ^ 64
      → to < 2 ^ 64
      → n + 1 < 2 ^ 64
      → (t : Tx) → Sound n t
      → Ensures (Store.create_edge b ix t from to label props) (λ x. Sound (n + 1) x.1)
  create_edge-Sound n from to label props hf ht room t s =
      let joins =
        create_edge-Ensures b ix t from to label props s.opened s.linked hf ht
          (λ m at. let below = s.up_to m at in omega (arith, below, room)) in
      record {
        holds = λ x done.
            let j = (joins.holds x done).joined in
            let below = s.up_to x.0.id j.was in
            record {
              opened = j.opened;
              linked = j.linked;
              up_to = λ m at. let now = j.now in ground (arith, now, at, below);
            };
      }
