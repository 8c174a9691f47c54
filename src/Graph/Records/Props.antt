-- ===== src/Graph/Records/Props.antt =====
-- internal/storage/graphstore/record.go: the records of nodes and edges are read back.
use mini_graph_db.Prelude.{
  ℕ, ◌-◌, ◌^◌, ◌<◌, ◌≡◌, refl, arith, ◌∙◌, List, [], ◌∷◌, ◌++◌, ltb, false, length, map, All,
  length-append, take-append, drop-append, append_assoc,
}
use mini_graph_db.Prelude.Bytes.{Bytes}
use mini_graph_db.Storage.{ok}
use mini_graph_db.Value.Uvarint.{put_uvarint}
use mini_graph_db.Value.Record.{encode_record}
use mini_graph_db.Value.Record.RoundTrip.{Fits, decode_record-encode_record}
use mini_graph_db.Graph.{Prop}
use mini_graph_db.Graph.Records.{
  encode_edge, decode_edge, encode_node, decode_node, uvar32, read_byte, read_prop, read_props_of,
  read_props, put_props, append_props, put_label_ids, read_label_ids,
}
use mini_graph_db.Graph.Records.Ends.{Ends, FitEnds, uvar-put, decode_edge-rest}

-- A property whose id is a uint32 and whose value has a record.
pub record FitsProp (p : Prop) : Type 0 where
  pub id_fits : p.id < 2 ^ 32
  pub value_fits : Fits p.value
  pub length_fits : length (encode_record p.value) < 2 ^ 64

-- The record holds no names; the catalog does.
abbrev pub without_name : Prop → Prop
without_name p = record p { name = [] }

abbrev pub nameless : List Prop → List Prop
nameless props = map without_name props

uvar32-put : (n : ℕ) (rest : Bytes) → n < 2 ^ 32 → uvar32 (put_uvarint n ++ rest) ≡ ok (n, rest)
uvar32-put n rest h =
    let small : ltb (2 ^ 32 - 1) n ≡ false = ground (arith, h) in
    rw (uvar-put n rest (omega (arith, h)), small) refl

read_prop-put :
    (p : Prop) (rest : Bytes)
    → FitsProp p
    → read_prop (
        put_uvarint p.id
        ++ (put_uvarint (length (encode_record p.value)) ++ (encode_record p.value ++ rest)))
      ≡ ok (record p { name = [] }, rest)
unfolding read_prop
read_prop-put p rest f =
    let rec = encode_record p.value in
    let long : ltb (length (rec ++ rest)) (length rec) ≡ false =
      ground (arith, length-append rec rest) in
    rw
      (
        uvar32-put p.id (put_uvarint (length rec) ++ (rec ++ rest)) f.id_fits,
        uvar-put (length rec) (rec ++ rest) f.length_fits,
        long,
        take-append rec rest,
        decode_record-encode_record p.value f.value_fits,
        drop-append rec rest,
      )
      refl

read_props_of-put :
    (props : List Prop)
    → All FitsProp props
    → read_props_of (length props) (put_props props) ≡ ok (nameless props, [])
unfolding read_props_of put_props
read_props_of-put [] f = refl
read_props_of-put (p ∷ props) f =
    rw (read_prop-put p (put_props props) f.0, read_props_of-put props f.1) refl

read_props-append :
    (props : List Prop)
    → All FitsProp props
    → length props < 2 ^ 64
    → read_props (append_props props) ≡ ok (nameless props, [])
unfolding read_props append_props
read_props-append props f few =
    rw (uvar-put (length props) (put_props props) few, read_props_of-put props f) refl

-- An edge is read back from its record, its property names apart. The ids fit, the values have records,
-- and there are fewer than 2^64 properties.
pub decode_edge-encode_edge :
    (e : Ends) (props : List Prop)
    → FitEnds e
    → All FitsProp props
    → length props < 2 ^ 64
    → decode_edge (encode_edge e.from e.to e.type_id props)
      ≡ ok (record { from = e.from; to = e.to; type_id = e.type_id; props = nameless props })
decode_edge-encode_edge e props fits f few =
    decode_edge-rest e props fits ∙ rw (read_props-append props f few) refl

read_label_ids-put :
    (ids : List ℕ) (rest : Bytes)
    → All (λ id. id < 2 ^ 32) ids
    → read_label_ids (length ids) (put_label_ids ids ++ rest) ≡ ok (ids, rest)
unfolding read_label_ids put_label_ids
read_label_ids-put [] rest f = refl
read_label_ids-put (id ∷ ids) rest f =
    rw
      (
        append_assoc (put_uvarint id) (put_label_ids ids) rest,
        uvar32-put id (put_label_ids ids ++ rest) f.0,
        read_label_ids-put ids rest f.1,
      )
      refl

-- A node is read back from its record, its property names apart. The ids fit, the values have records,
-- and there are fewer than 2^64 labels and properties.
pub decode_node-encode_node :
    (label_ids : List ℕ) (props : List Prop)
    → All (λ id. id < 2 ^ 32) label_ids
    → All FitsProp props
    → length label_ids < 2 ^ 64
    → length props < 2 ^ 64
    → decode_node (encode_node label_ids props)
      ≡ ok (record { label_ids = label_ids; props = nameless props })
unfolding decode_node encode_node read_byte
decode_node-encode_node ids props fits f few_ids few =
    rw
      (
        uvar-put (length ids) (put_label_ids ids ++ append_props props) few_ids,
        read_label_ids-put ids (append_props props) fits,
        read_props-append props f few,
      )
      refl
