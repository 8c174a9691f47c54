-- ===== src/Graph/Store/Nodes/Unindex.antt =====
-- internal/storage/graphstore/store.go: which keys `unindexLabels` and `unindexProps` take.
use mini_graph_db.Prelude.{
  ℕ, Option, none, some, List, [], ◌∷◌, ◌≡◌, ◌≢◌, refl, ◌∙◌, ◌==◌, nat_eq, Bool-cases, inl, inr,
  All,
}
use mini_graph_db.Prelude.Bytes.{Bytes, bytes_eq, bytes_beq_iff}
use mini_graph_db.Storage.{ok, ks_prop, ks_label, ks_catalog}
use mini_graph_db.Storage.Ensures.{Ensures, Ensures-ok, Ensures-bind, Ensures-itself}
use mini_graph_db.Txn.Backend.{Backend}
use mini_graph_db.Graph.{Prop}
use mini_graph_db.Graph.Keys.{catalog_key, label_key, prop_index_key, cat_label}
use mini_graph_db.Graph.Names.{lookup_name}
use mini_graph_db.Graph.Indexing.{Only, NoMore, Indexing}
use mini_graph_db.Graph.Store.{unindex_label, unindex_labels, unindex_props}
use mini_graph_db.Graph.Store.Frames.{delete-Written}
use mini_graph_db.Graph.Store.Reads.{get-Ensures}

pub map-All {ℓ} :
    {A : Type ℓ} {P Q : A → Type 0} (xs : List A) → ((x : A) → P x → Q x) → All P xs → All Q xs
map-All [] f all = tt
map-All (x ∷ xs) f all = (f x all.0, map-All xs f all.1)

module _ (b : Backend) where
  open b use {Tx, view, IsOpen}

  -- A name's id is what the catalog holds.
  pub lookup_name-same :
      (t u : Tx) (kind : ℕ) (name : Bytes)
      → IsOpen t
      → IsOpen u
      → view u ks_catalog (catalog_key kind name) ≡ view t ks_catalog (catalog_key kind name)
      → lookup_name b u kind name ≡ lookup_name b t kind name
  unfolding lookup_name
  lookup_name-same t u kind name ot ou same =
      rw
        (
          get-Ensures b u ks_catalog (catalog_key kind name) ou,
          get-Ensures b t ks_catalog (catalog_key kind name) ot,
          same,
        )
        refl

module _ (b : Backend) (ix : Indexing b) where
  open b use {Tx, view, IsOpen}

  -- The label key of a node under a label of the catalog is not there.
  abbrev pub NotUnder : Tx → Tx → ℕ → Bytes → Type 0
  NotUnder t u node_id l =
      (lid : ℕ)
      → lookup_name b t cat_label l ≡ ok (some lid)
      → view u ks_label (label_key lid node_id) ≡ none

  pub record Unlabelled (t u : Tx) (node_id : ℕ) (ls : List Bytes) : Type 0 where
    pub only : Only b ks_label t u
    pub less : NoMore b ks_label t u
    pub gone : All (NotUnder t u node_id) ls
    pub others :
        (k : Bytes)
        → ((lid : ℕ) → label_key lid node_id ≢ k)
        → view u ks_label k ≡ view t ks_label k

  Unlabelled-refl : (t : Tx) (node_id : ℕ) → IsOpen t → Unlabelled t t node_id []
  Unlabelled-refl t node_id o = record {
    only = record { opened = o; rest = λ js j h. refl };
    less = λ j h. h;
    gone = tt;
    others = λ k h. refl;
  }

  unindex_label-Unlabelled :
      (t : Tx) (node_id : ℕ) (l : Bytes) (o : Option ℕ)
      → IsOpen t
      → lookup_name b t cat_label l ≡ ok o
      → Ensures (unindex_label b ix t node_id o) (λ u. Unlabelled t u node_id (l ∷ []))
  unindex_label-Unlabelled t node_id l none open_t found = Ensures-ok (
      let same = Unlabelled-refl t node_id open_t in
      record {
        only = same.only;
        less = same.less;
        gone = (λ lid at. absurd (cc (at, found)), tt);
        others = same.others;
      })
  unindex_label-Unlabelled t node_id l (some id) open_t found = record {
    holds = λ u done.
        let (ou, w) = (delete-Written b t ks_label (label_key id node_id) open_t).holds u done in
        record {
          only = record { opened = ou; rest = λ js j h. w js j ∙ rw h refl };
          less = λ j h. w ks_label j ∙ elim (Bool-cases (label_key id node_id == j)) [
            | inl own ↦ rw own refl
            | inr other ↦ rw other h
          ];
          gone = (
            λ lid at.
                let own : id ≡ lid = cc (at, found) in
                rw (← own) (
                  w ks_label (label_key id node_id)
                  ∙ rw ((bytes_beq_iff (label_key id node_id) (label_key id node_id)).1 refl) refl),
            tt,
          );
          others = λ k apart. w ks_label k ∙ elim (Bool-cases (label_key id node_id == k)) [
            | inl own ↦ absurd (apart id ((bytes_beq_iff (label_key id node_id) k).0 own))
            | inr other ↦ rw other refl
          ];
        };
  }

  Unlabelled-trans :
      (t u v : Tx) (node_id : ℕ) (l : Bytes) (ls : List Bytes)
      → IsOpen t
      → Unlabelled t u node_id (l ∷ [])
      → Unlabelled u v node_id ls
      → Unlabelled t v node_id (l ∷ ls)
  Unlabelled-trans t u v node_id l ls o x y = record {
    only = record {
      opened = y.only.opened;
      rest = λ js j h. y.only.rest js j h ∙ x.only.rest js j h;
    };
    less = λ j h. y.less j (x.less j h);
    gone = (
      λ lid at. y.less _ (x.gone.0 lid at),
      map-All ls
          (λ m under lid at. under lid (
            lookup_name-same b t u cat_label m o x.only.opened (x.only.rest ks_catalog _ refl)
            ∙ at))
          y.gone,
    );
    others = λ k h. y.others k h ∙ x.others k h;
  }

  pub unindex_labels-Unlabelled :
      (t : Tx) (node_id : ℕ) (ls : List Bytes)
      → IsOpen t
      → Ensures (unindex_labels b ix t node_id ls) (λ u. Unlabelled t u node_id ls)
  unfolding unindex_labels
  unindex_labels-Unlabelled t node_id [] o = Ensures-ok (Unlabelled-refl t node_id o)
  unindex_labels-Unlabelled t node_id (l ∷ ls) o =
      Ensures-bind (Ensures-itself (lookup_name b t cat_label l)) λ r found.
        Ensures-bind (unindex_label-Unlabelled t node_id l r o found) λ u x. record {
          holds = λ v done.
              Unlabelled-trans t u v node_id l ls o x
                ((unindex_labels-Unlabelled u node_id ls x.only.opened).holds v done);
        }

  -- The key of a property of a node in the implicit index is not there.
  abbrev pub NotUnderProp : Tx → ℕ → Prop → Type 0
  NotUnderProp u node_id p =
      view u ks_prop (prop_index_key p.id (ix.encode_key p.value) node_id) ≡ none

  pub record Unfiled (t u : Tx) (node_id : ℕ) (ps : List Prop) : Type 0 where
    pub only : Only b ks_prop t u
    pub less : NoMore b ks_prop t u
    pub gone : All (NotUnderProp u node_id) ps

  pub unindex_props-Unfiled :
      (t : Tx) (node_id : ℕ) (ps : List Prop)
      → IsOpen t
      → Ensures (unindex_props b ix t node_id ps) (λ u. Unfiled t u node_id ps)
  unfolding unindex_props
  unindex_props-Unfiled t node_id [] o =
      Ensures-ok
        record { only = record { opened = o; rest = λ js j h. refl }; less = λ j h. h; gone = tt }
  unindex_props-Unfiled t node_id (p ∷ ps) o =
      let k = prop_index_key p.id (ix.encode_key p.value) node_id in
      Ensures-bind (delete-Written b t ks_prop k o) λ u w. record {
        holds = λ v done.
            let y = (unindex_props-Unfiled u node_id ps w.0).holds v done in
            record {
              only = record {
                opened = y.only.opened;
                rest = λ js j h. y.only.rest js j h ∙ w.1 js j ∙ rw h refl;
              };
              less = λ j h. y.less j (
                  w.1 ks_prop j
                  ∙ elim (Bool-cases (k == j)) [ inl own ↦ rw own refl | inr other ↦ rw other h ]);
              gone = (y.less k (w.1 ks_prop k ∙ rw ((bytes_beq_iff k k).1 refl) refl), y.gone);
            };
      }
