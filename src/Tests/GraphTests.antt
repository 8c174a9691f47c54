-- ===== src/Tests/GraphTests.antt =====
-- A graph over the memory engine.
use mini_graph_db.Prelude.{All, Bool, true, ◌≡◌, List, [], ◌∷◌, none, some, refl, arith, false}
use mini_graph_db.Prelude.Bytes.{
  Bytes, put_uint64, put_uint32, uint64, uint32, compare_bytes, bytes_beq,
}
use mini_graph_db.Value.Uvarint
use mini_graph_db.Storage.WriteSet.{ops_of, find, store, write_count, has_writes}
use mini_graph_db.Memory.Engine
use mini_graph_db.Memory.Snapshot
use mini_graph_db.Memory.Space
use mini_graph_db.Memory.Cursor
use mini_graph_db.Memory.Cursor.Seeks
use mini_graph_db.Txn.Versions.{has_prefix}
use mini_graph_db.Graph.Store.Nodes.Delete.{NodeGone, delete_node-NodeGone}
use mini_graph_db.Graph.Store.Scans.Incident.{IsIncident, incident_edges-IsIncident}
use mini_graph_db.Graph.Keys
use mini_graph_db.Graph.Names
use mini_graph_db.Graph.Records
use mini_graph_db.Graph.Records.Props.{
  FitsProp, nameless, decode_edge-encode_edge, decode_node-encode_node,
}
use mini_graph_db.Value.{scalar, string}
use mini_graph_db.Value.Record.{encode_record, encode, encode_scalar, put_blob}
use mini_graph_db.Graph.Store
use mini_graph_db.Prelude.Assoc.{lookup, insert, remove}
use mini_graph_db.Storage.{Keyspace, Result, ok, err}
use mini_graph_db.Memory.Engine.{Engine, open_engine}
use mini_graph_db.Memory.Snapshot.{value_in}
use mini_graph_db.Memory.Engine.Step.{open_engine-IsValid}
use mini_graph_db.Txn.MemoryBackend.{memory_backend, IsReady}
use mini_graph_db.Graph.{Edge, Prop}
use mini_graph_db.Graph.Indexing.{Indexing}
use mini_graph_db.Graph.Declared
use mini_graph_db.Graph.Declared.{Index, edge_entity, online, stats}
use mini_graph_db.Graph.Declared.Keyspaces.{declared}
use mini_graph_db.Value
use mini_graph_db.Value.Record
use mini_graph_db.Graph.Store.Links.{IsLinked}
use mini_graph_db.Graph.Facade
use mini_graph_db.Graph.Snapshot.{clear_keyspaces, data_keyspaces}
use mini_graph_db.Graph.Snapshot.Clear.{Hides, among, clear_keyspaces-Hides}
use mini_graph_db.Graph.Queries
use mini_graph_db.Graph.Traverse
use mini_graph_db.Graph.Traverse.{Neighbor}
use mini_graph_db.Graph.Facade.Runs.{Call, run, creates_node, creates_edge, AllFit, FitsCall, call}
use mini_graph_db.Graph.Facade.Runs.Linked.{run-IsLinked}

open_engine-IsReady : IsReady open_engine
unfolding open_engine
open_engine-IsReady = record {
  sound = open_engine-IsValid;
  up = refl;
  no_before = refl;
  no_after = refl;
}

holds-open_engine : (js : Keyspace) (j : Bytes) → memory_backend.holds open_engine js j ≡ none
unfolding value_in open_engine lookup
holds-open_engine js j = ground arith

-- An online index on the property `K` of edges of type `B`, and encodings by tags.
abbrev on_edges : Index
on_edges = record {
  id = 1;
  name = 73 ∷ [];
  entity = edge_entity;
  label = 66 ∷ [];
  props = (75 ∷ []) ∷ [];
  unique = false;
  state = online;
}

abbrev indexed : Indexing memory_backend
indexed =
    declared memory_backend (λ t. ok (on_edges ∷ [])) (λ vals. 7 ∷ []) (λ v. 8 ∷ [])
      (λ t. ok (record { kind = stats; rest = []; value = some (1 ∷ []) } ∷ []))

-- Two nodes, an edge, a self-loop, an edge that fails, and a deletion.
abbrev calls : List Call
calls =
    creates_node ((65 ∷ []) ∷ []) []
    ∷ creates_node [] []
    ∷ creates_edge 1 2 (66 ∷ []) ((75 ∷ [], scalar (string (9 ∷ []))) ∷ [])
    ∷ creates_edge 2 2 (66 ∷ []) []
    ∷ creates_edge 1 9 (66 ∷ []) []
    ∷ []

calls-fit : AllFit calls
unfolding AllFit FitsCall
calls-fit = (
  tt,
  (
    tt,
    ((omega arith, omega arith), ((omega arith, omega arith), ((omega arith, omega arith), tt))),
  ),
)

abbrev made : Engine
made = run memory_backend indexed open_engine calls

value : {A : Type 0} → Result A → A → A
value (ok a) other = a
value (err e) other = other

is_ok : {A : Type 0} → Result A → Bool
is_ok (ok a) = true
is_ok (err e) = false

is_ok-value : {A : Type 0} (r : Result A) (other : A) → is_ok r ≡ true → r ≡ ok (value r other)
unfolding value is_ok
is_ok-value (ok a) other h = refl
is_ok-value (err e) other h = absurd (cc (h))

abbrev at_first : memory_backend.Tx
at_first = (memory_backend.begin_view open_engine open_engine-IsReady).0

-- A transaction on the graph that the calls made.
abbrev built : memory_backend.Tx
built = value (memory_backend.begin made) at_first

abbrev joined : Result (Edge × memory_backend.Tx)
joined = Store.create_edge memory_backend indexed built 2 1 (66 ∷ []) []

abbrev made_edge : Edge × memory_backend.Tx
made_edge = value joined (record { id = 0; from = 0; to = 0; label = []; props = [] }, at_first)

abbrev no_edge : memory_backend.Tx
no_edge = value (Store.delete_edge memory_backend indexed built 1) at_first

abbrev no_node : memory_backend.Tx
no_node = value (Store.delete_node memory_backend indexed built 2) at_first

-- The runs come to these ends.
ends :
    (is_ok (memory_backend.begin made) ≡ true)
    × (Store.incident_edges memory_backend indexed built 2 ≡ ok (2 ∷ 1 ∷ 2 ∷ []))
    × (Names.read_counter memory_backend built Keys.cat_next_edge ≡ ok 3)
    × (is_ok joined ≡ true)
    × (is_ok (Store.delete_edge memory_backend indexed built 1) ≡ true)
    × (is_ok (Store.delete_node memory_backend indexed built 2) ≡ true)
unfolding Facade.get_edge Store.delete_edge Store.delete_node Store.delete_edges
    Store.incident_edges Store.scan_prefix Store.leading Store.edge_ids Store.unindex_labels
    Store.unindex_props Keys.parse_adj Names.lookup_name has_prefix Cursor.cursor Cursor.seek
    Cursor.search_items Cursor.item Cursor.next Cursor.valid Snapshot.base_items
    Snapshot.extra_items Snapshot.insert_item Snapshot.sort_items Snapshot.merge_items
    Snapshot.materialize value is_ok Facade.read Facade.write Facade.create_node Facade.create_edge
    Facade.validate_props run call Store.get_edge Store.load_edge Store.get_node Store.create_node
    Store.create_edge Store.write_node Store.write_edge Store.assign_props Store.assign_all
    Store.props_of Store.sort_props Store.intern_labels Store.index_labels Store.index_props
    Store.label_names Store.names_of Store.fill_prop_names Store.normalize_labels Store.fresh_labels
    Store.sort_labels Store.insert_label Store.contains Names.alloc Names.read_counter
    Names.write_counter Names.intern Names.intern_new Names.put_name Names.cat_name Keys.id_key
    Keys.out_key Keys.in_key Keys.label_key Keys.type_key Keys.catalog_key Keys.rev_key
    Records.encode_node Records.encode_edge Records.put_label_ids Records.put_props
    Records.append_props Records.decode_node Records.decode_edge Records.read_byte Records.uvar
    Records.read_props Records.read_props_of Records.read_label_ids Uvarint.put_uvarint
    Uvarint.put_groups Uvarint.read_uvarint Uvarint.read_groups put_uint64 put_uint32 uint64 uint32
    compare_bytes bytes_beq lookup insert remove Engine.open_engine Engine.begin Engine.get
    Engine.put Engine.buffer Engine.commit Snapshot.ensure Snapshot.value_in Snapshot.key_count
    Snapshot.apply_ops Snapshot.apply_writes Space.search_by Space.stands_at Space.insert_at
    Space.delete_at Space.put Space.del ops_of find store write_count has_writes Seeks.walk
    Engine.delete Declared.touch_declared Declared.touch_all Declared.touch_index
    Declared.index_values Declared.prop_map Declared.fill_map Declared.indexable Declared.add_writes
    Declared.read_u64 Declared.write_note Declared.write_notes encode_record encode encode_scalar
    put_blob Records.read_prop Store.insert_prop Record.read_blob Record.kind_of_tag
    Record.decode_scalar Record.by_kind Record.decode Record.all_read Record.decode_record
    Value.storable
ends = (refl, refl, refl, refl, refl, refl)

abbrev between : List Edge
between =
    record {
      id = 1;
      from = 1;
      to = 2;
      label = 66 ∷ [];
      props = record { id = 1; name = 75 ∷ []; value = scalar (string (9 ∷ [])) } ∷ [];
    }
    ∷ []

abbrev reached : List Neighbor
reached = record { node = record { id = 2; labels = []; props = [] }; depth = 1 } ∷ []

run-IsLinked_example :
    (t : memory_backend.Tx) × (memory_backend.begin made ≡ ok t)
    × memory_backend.IsOpen t
    × IsLinked memory_backend t
run-IsLinked_example =
    run-IsLinked memory_backend indexed open_engine calls open_engine-IsReady holds-open_engine
      calls-fit (omega arith)

built-IsLinked : memory_backend.IsOpen built × IsLinked memory_backend built
built-IsLinked =
    let (t, begins, o, l) =
      run-IsLinked memory_backend indexed open_engine calls open_engine-IsReady holds-open_engine
        calls-fit (omega arith) in
    let same : t ≡ built = cc (begins, is_ok-value (memory_backend.begin made) at_first ends.0) in
    rw (← same) (o, l)

incident_edges-IsIncident_example : IsIncident memory_backend indexed built 2 (2 ∷ 1 ∷ 2 ∷ [])
incident_edges-IsIncident_example =
    incident_edges-IsIncident memory_backend indexed built 2 (2 ∷ 1 ∷ 2 ∷ []) built-IsLinked.0
      built-IsLinked.1 (omega arith) ends.1

delete_node-NodeGone_example : NodeGone memory_backend indexed built no_node 2
delete_node-NodeGone_example =
    delete_node-NodeGone memory_backend indexed built 2 no_node built-IsLinked.0 built-IsLinked.1
      (omega arith) (is_ok-value (Store.delete_node memory_backend indexed built 2) at_first ends.5)

abbrev some_props : List Prop
some_props = record { id = 3; name = 65 ∷ []; value = scalar (string (9 ∷ 8 ∷ [])) } ∷ []

some_props-FitsProp : All FitsProp some_props
unfolding encode_record encode encode_scalar put_blob Uvarint.put_uvarint Uvarint.put_groups
some_props-FitsProp =
    (record { id_fits = omega arith; value_fits = omega arith; length_fits = omega arith }, tt)

decode_edge-encode_edge_example :
    Records.decode_edge (Records.encode_edge 300 2 1 some_props)
    ≡ ok (record { from = 300; to = 2; type_id = 1; props = nameless some_props })
decode_edge-encode_edge_example =
    decode_edge-encode_edge (record { from = 300; to = 2; type_id = 1 }) some_props
      (record { from_fits = omega arith; to_fits = omega arith; type_fits = omega arith })
      some_props-FitsProp (omega arith)

decode_node-encode_node_example :
    Records.decode_node (Records.encode_node (7 ∷ 300 ∷ []) some_props)
    ≡ ok (record { label_ids = 7 ∷ 300 ∷ []; props = nameless some_props })
decode_node-encode_node_example =
    decode_node-encode_node (7 ∷ 300 ∷ []) some_props (omega arith, (omega arith, tt))
      some_props-FitsProp (omega arith) (omega arith)

clear_keyspaces-Hides_example :
    Hides memory_backend indexed built
      (clear_keyspaces memory_backend indexed built data_keyspaces)
      (λ js j. among memory_backend indexed js data_keyspaces)
clear_keyspaces-Hides_example =
    clear_keyspaces-Hides memory_backend indexed built data_keyspaces built-IsLinked.0
