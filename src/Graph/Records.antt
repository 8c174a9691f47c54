-- ===== src/Graph/Records.antt =====
-- internal/storage/graphstore/record.go: the records of nodes and edges. `rbuf` is the bytes that it
-- has left; every error of this file is `corrupt`. A count
-- that `make` cannot allocate makes Go panic in `readLabelIDs` and `readProps`; here the input is found
-- cut short.
pub mod Ends
pub mod Props
use mini_graph_db.Prelude.{
  ℕ, zero, suc, ◌^◌, ◌-◌, not, Option, none, some, List, [], ◌∷◌, ◌++◌, length, take, drop,
  if◌then◌else◌, ltb, ◌==◌, nat_eq,
}
use mini_graph_db.Prelude.Bytes.{Bytes}
use mini_graph_db.Storage.{Result, ok, err, ◌>>=◌, corruption}
use mini_graph_db.Value.{Value}
use mini_graph_db.Value.Uvarint.{put_uvarint, read_uvarint}
use mini_graph_db.Value.Record.{Decoded, done, fail, encode_record, decode_record}
use mini_graph_db.Graph.{Prop}

abbrev pub node_rec_version : ℕ
node_rec_version = 1

unfoldable pub put_props : List Prop → Bytes
put_props [] = []
put_props (p ∷ props) =
    let rec = encode_record p.value in
    put_uvarint p.id ++ (put_uvarint (length rec) ++ (rec ++ put_props props))

unfoldable pub append_props : List Prop → Bytes
append_props props = put_uvarint (length props) ++ put_props props

unfoldable pub put_label_ids : List ℕ → Bytes
put_label_ids [] = []
put_label_ids (id ∷ ids) = put_uvarint id ++ put_label_ids ids

unfoldable pub encode_node : List ℕ → List Prop → Bytes
encode_node label_ids props =
    node_rec_version
    ∷ (put_uvarint (length label_ids) ++ (put_label_ids label_ids ++ append_props props))

unfoldable pub encode_edge : (from to type_id : ℕ) → List Prop → Bytes
encode_edge from to type_id props =
    node_rec_version
    ∷ (put_uvarint from ++ (put_uvarint to ++ (put_uvarint type_id ++ append_props props)))

pub record DecodedNode : Type 0 where
  pub label_ids : List ℕ
  pub props : List Prop

pub record DecodedEdge : Type 0 where
  pub from : ℕ
  pub to : ℕ
  pub type_id : ℕ
  pub props : List Prop

abbrev pub or_corrupt : {A : Type 0} → Option A → Result A
or_corrupt none = err corruption
or_corrupt (some a) = ok a

unfoldable pub read_byte : Bytes → Result (ℕ × Bytes)
read_byte [] = err corruption
read_byte (c ∷ b) = ok (c, b)

unfoldable pub uvar : Bytes → Result (ℕ × Bytes)
uvar b = or_corrupt (read_uvarint b)

-- A varint that must be a uint32.
abbrev pub uvar32 : Bytes → Result (ℕ × Bytes)
uvar32 b = do (id, r) ← uvar b; if ltb (2 ^ 32 - 1) id then err corruption else ok (id, r)

abbrev pub or_bad_value : Decoded Value → Result Value
or_bad_value (fail e) = err corruption
or_bad_value (done v) = ok v

-- `if uint64(r.left()) < ln`.
abbrev pub enough : ℕ → Bytes → Result (Unit {0})
enough ln b = if ltb (length b) ln then err corruption else ok tt

-- One round of the loop of `props`; the name is filled in later.
unfoldable pub read_prop : Bytes → Result (Prop × Bytes)
read_prop b = do
  (id, b1) ← uvar32 b
  (ln, b2) ← uvar b1
  _ ← enough ln b2
  val ← or_bad_value (decode_record (take ln b2))
  ok (record { id = id; name = []; value = val }, drop ln b2)

unfoldable pub read_props_of : ℕ → Bytes → Result (List Prop × Bytes)
read_props_of zero b = ok ([], b)
read_props_of (suc n) b = do
  (p, r) ← read_prop b
  (props, rest) ← read_props_of n r
  ok (p ∷ props, rest)

unfoldable pub read_props : Bytes → Result (List Prop × Bytes)
read_props b = do (n, r) ← uvar b; read_props_of n r

unfoldable pub read_label_ids : ℕ → Bytes → Result (List ℕ × Bytes)
read_label_ids zero b = ok ([], b)
read_label_ids (suc n) b = do
  (id, r) ← uvar32 b
  (ids, rest) ← read_label_ids n r
  ok (id ∷ ids, rest)

-- `if r.left() != 0`.
abbrev pub all_read : {A : Type 0} → A → Bytes → Result A
all_read a [] = ok a
all_read a (_ ∷ _) = err corruption

abbrev pub check_version : ℕ → Result (Unit {0})
check_version ver = if not (ver == node_rec_version) then err corruption else ok tt

unfoldable pub decode_node : Bytes → Result DecodedNode
decode_node b = do
  (ver, b1) ← read_byte b
  _ ← check_version ver
  (n, b2) ← uvar b1
  (labels, b3) ← read_label_ids n b2
  (props, b4) ← read_props b3
  all_read (record { label_ids = labels; props = props }) b4

unfoldable pub decode_edge : Bytes → Result DecodedEdge
decode_edge b = do
  (ver, b1) ← read_byte b
  _ ← check_version ver
  (from, b2) ← uvar b1
  (to, b3) ← uvar b2
  (type_id, b4) ← uvar32 b3
  (props, b5) ← read_props b4
  all_read (record { from = from; to = to; type_id = type_id; props = props }) b5
