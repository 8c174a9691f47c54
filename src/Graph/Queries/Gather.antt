-- ===== src/Graph/Queries/Gather.antt =====
-- internal/storage/graphstore/store.go: the loops that read an edge for each key find all of them.
use mini_graph_db.Prelude.{
  ℕ, Bool, true, false, Option, none, some, List, [], ◌∷◌, map, leb, ◌≡◌, refl, arith, ◌∙◌, ◌||◌,
  ◌==◌, Bool-cases, inl, inr, nat_eq,
}
use mini_graph_db.Prelude.Bytes.{bytes_eq}
use mini_graph_db.Storage.{Result, ok, err, ks_edge, is_not_found}
use mini_graph_db.Storage.Ensures.{Ensures, Ensures-ok, Ensures-err, Ensures-after, Ensures-bind}
use mini_graph_db.Txn.Backend.{Backend}
use mini_graph_db.Graph.{Edge}
use mini_graph_db.Graph.Keys.{id_key, cat_type_rev}
use mini_graph_db.Graph.Indexing.{Indexing}
use mini_graph_db.Graph.Store.{
  contains, get_edge, load_edge, or_missing, or_corrupt, fill_prop_names,
}
use mini_graph_db.Graph.Names.{maybe, cat_name}
use mini_graph_db.Graph.Records.{decode_edge}
use mini_graph_db.Graph.Store.Scans.{HoldsId}
use mini_graph_db.Graph.Queries.{skip_missing, add_some, insert_by, sort_by, gather}
use mini_graph_db.Graph.Queries.Missing.{Found}

abbrev pub ids_of : List Edge → List ℕ
ids_of es = map (λ e. e.id) es

pub contains-insert_by :
    (i : ℕ) (e : Edge) (es : List Edge)
    → contains (λ x. x == i) (ids_of (insert_by (λ x. x.id) e es))
      ≡ ((e.id == i) || contains (λ x. x == i) (ids_of es))
unfolding contains insert_by
contains-insert_by i e [] = refl
contains-insert_by i e (y ∷ es) = elim (Bool-cases (leb e.id y.id)) [
  | inl first ↦ rw first refl
  | inr later ↦ rw (later, contains-insert_by i e es) (swap (y.id == i) (e.id == i))
]
  where
    swap :
        (a c : Bool)
        → (a || (c || contains (λ x. x == i) (ids_of es)))
          ≡ (c || (a || contains (λ x. x == i) (ids_of es)))
    swap true true = refl
    swap true false = refl
    swap false true = refl
    swap false false = refl

pub contains-sort_by :
    (i : ℕ) (es : List Edge)
    → contains (λ x. x == i) (ids_of (sort_by (λ x. x.id) es)) ≡ contains (λ x. x == i) (ids_of es)
unfolding contains sort_by
contains-sort_by i [] = refl
contains-sort_by i (e ∷ es) =
    contains-insert_by i e (sort_by (λ x. x.id) es) ∙ rw (contains-sort_by i es) refl

abbrev pub is_id : ℕ → Option ℕ → Bool
is_id i none = false
is_id i (some j) = j == i

abbrev pub HoldsSome : ℕ → List (Option ℕ) → Type 0
HoldsSome i ids = contains (is_id i) ids ≡ true

-- What the loop has found.
pub record IsGathered (i : ℕ) (ids : List (Option ℕ)) (out : List Edge) : Type 0 where
  pub sound : HoldsId i (ids_of out) → HoldsSome i ids
  pub complete : HoldsSome i ids → HoldsId i (ids_of out)

-- What one round has found.
record IsLooked (i j : ℕ) (o : Option Edge) : Type 0 where
  pub own : (e : Edge) → o ≡ some e → e.id ≡ j
  pub there : j ≡ i → (e : Edge) × (o ≡ some e)

skip_missing-IsLooked :
    (i j : ℕ) (r : Result Edge)
    → Ensures r (λ e. e.id ≡ j)
    → (j ≡ i → Found r)
    → Ensures (skip_missing r) (IsLooked i j)
skip_missing-IsLooked i j (ok e) own found = Ensures-ok (record {
  own = λ x at. let same : e ≡ x = cc (at) in rw (← same) (own.holds e refl);
  there = λ _. (e, refl);
})
skip_missing-IsLooked i j (err x) own found = elim (Bool-cases (is_not_found x)) [
  | inl missing ↦ rw missing (
      Ensures-ok (record {
        own = λ e at. absurd (cc (at));
        there = λ same. absurd (cc (missing, (found same).other x refl));
      }))
  | inr other ↦ rw other Ensures-err
]

add_some-IsGathered :
    (i j : ℕ) (ids : List (Option ℕ)) (o : Option Edge) (out : List Edge)
    → IsLooked i j o
    → IsGathered i ids out
    → IsGathered i (some j ∷ ids) (add_some o out)
unfolding contains
add_some-IsGathered i j ids none out l g = record {
  sound = λ h. ground (arith, g.sound h);
  complete = λ h. elim (Bool-cases (j == i)) [
    | inl own ↦ let (e, at) = l.there (ground (arith, own)) in absurd (cc (at))
    | inr other ↦ g.complete (ground (arith, h, other))
  ];
}
add_some-IsGathered i j ids (some e) out l g =
    let own = l.own e refl in
    record {
      sound = λ h. elim (Bool-cases (j == i)) [
        | inl same ↦ ground (arith, same)
        | inr other ↦ ground (arith, g.sound (ground (arith, h, other, own)))
      ];
      complete = λ h. elim (Bool-cases (j == i)) [
        | inl same ↦ ground (arith, same, own)
        | inr other ↦ ground (arith, g.complete (ground (arith, h, other)))
      ];
    }

module _ (b : Backend) (ix : Indexing b) where
  open b use {Tx, view, IsOpen}

  pub get_edge-own : (t : Tx) (id : ℕ) → Ensures (get_edge b ix t id) (λ e. e.id ≡ id)
  unfolding get_edge load_edge
  get_edge-own t id =
      Ensures-bind {P = λ rec. rec.edge.id ≡ id}
        (Ensures-after (maybe (b.get t ks_edge (id_key id))) λ o.
          Ensures-after (or_missing o) λ raw. Ensures-after (decode_edge raw) λ dec.
            Ensures-after (cat_name b t cat_type_rev dec.type_id) λ n.
              Ensures-after (or_corrupt n)
                λ name. Ensures-after (fill_prop_names b ix t dec.props) λ ps. Ensures-ok refl)
        λ rec own. Ensures-ok own

  abbrev pub look : Tx → ℕ → Result (Option Edge)
  look t i = skip_missing (get_edge b ix t i)

  pub gather-IsGathered :
      (t : Tx) (i : ℕ) (ids : List (Option ℕ))
      → (HoldsSome i ids → Found (get_edge b ix t i))
      → Ensures (gather (look t) ids) (IsGathered i ids)
  unfolding gather contains
  gather-IsGathered t i [] there = Ensures-ok (record { sound = λ h. h; complete = λ h. h })
  gather-IsGathered t i (none ∷ ids) there = record {
    holds = λ out done.
        let r = (gather-IsGathered t i ids (λ h. there h)).holds out done in
        record { sound = r.sound; complete = r.complete };
  }
  gather-IsGathered t i (some j ∷ ids) there =
      Ensures-bind
        (skip_missing-IsLooked i j (get_edge b ix t j) (get_edge-own t j)
          (λ same. rw same (there (ground (arith, same)))))
        λ o looked.
          Ensures-bind (gather-IsGathered t i ids (λ h. there (ground (arith, h))))
            λ out r. Ensures-ok (add_some-IsGathered i j ids o out looked r)
