-- ===== src/Graph/Keys.antt =====
-- internal/storage/graphstore/keys.go: the keys of nodes, edges, adjacency, labels and names.
pub mod Apart
use mini_graph_db.Prelude.{
  ℕ, ◌+◌, Bool, not, Option, none, some, List, [], ◌∷◌, ◌++◌, length, drop, if◌then◌else◌, ◌==◌,
  nat_eq,
}
use mini_graph_db.Prelude.Bytes.{Bytes, put_uint64, uint64, put_uint32, uint32}
use mini_graph_db.Value.Uvarint.{put_uvarint}

-- Catalog record kinds.
abbrev pub cat_prop : ℕ
cat_prop = 1

abbrev pub cat_label : ℕ
cat_label = 2

abbrev pub cat_edge_type : ℕ
cat_edge_type = 3

abbrev pub cat_next_node : ℕ
cat_next_node = 4

abbrev pub cat_next_edge : ℕ
cat_next_edge = 5

abbrev pub cat_next_prop : ℕ
cat_next_prop = 6

abbrev pub cat_next_label : ℕ
cat_next_label = 7

abbrev pub cat_next_type : ℕ
cat_next_type = 8

abbrev pub cat_prop_rev : ℕ
cat_prop_rev = 0x81

abbrev pub cat_label_rev : ℕ
cat_label_rev = 0x82

abbrev pub cat_type_rev : ℕ
cat_type_rev = 0x83

unfoldable pub id_key : ℕ → Bytes
id_key id = put_uint64 id

unfoldable pub out_key : (from type_id to edge_id : ℕ) → Bytes
out_key from type_id to edge_id =
    put_uint64 from ++ (put_uint32 type_id ++ (put_uint64 to ++ put_uint64 edge_id))

unfoldable pub in_key : (to type_id from edge_id : ℕ) → Bytes
in_key to type_id from edge_id =
    put_uint64 to ++ (put_uint32 type_id ++ (put_uint64 from ++ put_uint64 edge_id))

unfoldable pub label_key : (label_id node_id : ℕ) → Bytes
label_key label_id node_id = put_uint32 label_id ++ put_uint64 node_id

unfoldable pub type_key : (type_id edge_id : ℕ) → Bytes
type_key type_id edge_id = put_uint32 type_id ++ put_uint64 edge_id

-- `propIndexKey`, from what `value.EncodeKey` gives for the value.
unfoldable pub prop_index_key : ℕ → Bytes → ℕ → Bytes
prop_index_key prop_id encoded node_id = (put_uint32 prop_id ++ encoded) ++ put_uint64 node_id

unfoldable pub catalog_key : ℕ → Bytes → Bytes
catalog_key kind name = kind ∷ (put_uvarint (length name) ++ name)

unfoldable pub rev_key : ℕ → ℕ → Bytes
rev_key kind id = kind ∷ put_uint32 id

-- What `parseAdj` returns.
pub record Adjacent : Type 0 where
  pub a : ℕ
  pub type_id : ℕ
  pub b : ℕ
  pub edge_id : ℕ

unfoldable pub parse_adj : Bytes → Option Adjacent
parse_adj k =
    if not (length k == 28)
    then none
    else some (record {
      a = uint64 k;
      type_id = uint32 (drop 8 k);
      b = uint64 (drop 12 k);
      edge_id = uint64 (drop 20 k);
    })
