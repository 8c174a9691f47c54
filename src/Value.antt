-- ===== src/Value.antt =====
-- internal/value/value.go: the kinds, the values, their constructors and the fields of the struct.
-- A float64 is its 64 bits (Number.antt gives them their meaning), an int64 an integer, a string its
-- bytes. The struct's arms are the constructors of `Scalar` and `Value`.
pub mod Number
pub mod Compare
pub mod Chain
pub mod Flip
pub mod Uvarint
pub mod Record
pub mod Logic
pub mod Civil
use mini_graph_db.Prelude.{ℕ, Bool, true, false, ◌&&◌, Option, none, some}
use mini_graph_db.Prelude.{List, [], ◌∷◌, length, if◌then◌else◌, nat_beq, Ordering}
use mini_graph_db.Prelude.Bytes.{Bytes, compare_bytes}
use mini_graph_db.Prelude.Int.{ℤ, pos}

pub data Kind : Type 0 where
  kind_null : Kind
  kind_bool : Kind
  kind_int : Kind
  kind_float : Kind
  kind_string : Kind
  kind_bytes : Kind
  kind_date : Kind
  kind_date_time : Kind
  kind_duration : Kind
  kind_list : Kind
  kind_map : Kind
  kind_node : Kind
  kind_edge : Kind
  kind_path : Kind

-- The arms that hold no values: an instant's zone is `none` where no offset is recorded.
pub data Scalar : Type 0 where
  null : Scalar
  bool : Bool → Scalar
  int : ℤ → Scalar
  float : ℕ → Scalar
  string : Bytes → Scalar
  bytes : Bytes → Scalar
  date : ℤ → Scalar
  date_time : ℤ → Option ℤ → Scalar
  duration : ℤ → ℤ → ℤ → Scalar
  node : ℕ → Scalar
  edge : ℕ → Scalar
  path : List ℕ → List ℕ → Scalar

mutual
  pub data Value : Type 0 where
    scalar : Scalar → Value
    list : Values → Value
    map : Entries → Value

  pub data Values : Type 0 where
    nil : Values
    cons : Value → Values → Values

  -- `[]kv`.
  pub data Entries : Type 0 where
    end : Entries
    entry : Bytes → Value → Entries → Entries

abbrev pub scalar_kind : Scalar → Kind
scalar_kind null = kind_null
scalar_kind (bool b) = kind_bool
scalar_kind (int i) = kind_int
scalar_kind (float f) = kind_float
scalar_kind (string s) = kind_string
scalar_kind (bytes raw) = kind_bytes
scalar_kind (date i) = kind_date
scalar_kind (date_time i off) = kind_date_time
scalar_kind (duration i day nsec) = kind_duration
scalar_kind (node u) = kind_node
scalar_kind (edge u) = kind_edge
scalar_kind (path nodes edges) = kind_path

abbrev pub kind : Value → Kind
kind (scalar s) = scalar_kind s
kind (list xs) = kind_list
kind (map es) = kind_map

-- The number of a kind, which is its tag in a record.
abbrev pub tag : Kind → ℕ
tag kind_null = 0
tag kind_bool = 1
tag kind_int = 2
tag kind_float = 3
tag kind_string = 4
tag kind_bytes = 5
tag kind_date = 6
tag kind_date_time = 7
tag kind_duration = 8
tag kind_list = 9
tag kind_map = 10
tag kind_node = 11
tag kind_edge = 12
tag kind_path = 13

-- `Storable`: a path is not a property, nor is what holds one.
unfoldable mutual
  pub storable : Value → Bool
  storable (scalar (path nodes edges)) = false
  storable (scalar s) = true
  storable (list xs) = storable_list xs
  storable (map es) = storable_map es

  pub storable_list : Values → Bool
  storable_list nil = true
  storable_list (cons el xs) = storable el && storable_list xs

  pub storable_map : Entries → Bool
  storable_map end = true
  storable_map (entry key val es) = storable val && storable_map es

-- `PathOf`: one edge between any two neighbours; `none` is its error.
unfoldable pub path_of : List ℕ → List ℕ → Option Value
path_of [] [] = some (scalar (path [] []))
path_of [] (e ∷ edges) = none
path_of (n ∷ nodes) edges =
    if nat_beq (length edges) (length nodes) then some (scalar (path (n ∷ nodes) edges)) else none

-- `m[key] = val` on a Go map, kept in the order of its keys as `sortKVs` leaves them.
unfoldable pub put_entry : Bytes → Value → Entries → Entries
put_entry key val end = entry key val end
put_entry key val (entry k v es) = elim (compare_bytes key k) [
  | Ordering.lt ↦ entry key val (entry k v es)
  | Ordering.eq ↦ entry key val es
  | Ordering.gt ↦ entry k v (put_entry key val es)
]

-- The fields of the struct, 0 or empty where the kind does not use one.
abbrev pub bool_of : Scalar → Bool
bool_of (bool b) = b
bool_of _ = false

abbrev pub i_of : Scalar → ℤ
i_of (int i) = i
i_of (date i) = i
i_of (date_time i off) = i
i_of (duration i day nsec) = i
i_of _ = pos 0

abbrev pub day_of : Scalar → ℤ
day_of (duration i day nsec) = day
day_of _ = pos 0

abbrev pub nsec_of : Scalar → ℤ
nsec_of (duration i day nsec) = nsec
nsec_of _ = pos 0

abbrev pub zone_of : Scalar → Option ℤ
zone_of (date_time i off) = off
zone_of _ = none

abbrev pub float_of : Scalar → ℕ
float_of (float f) = f
float_of _ = 0

abbrev pub string_of : Scalar → Bytes
string_of (string s) = s
string_of _ = []

abbrev pub raw_of : Scalar → Bytes
raw_of (bytes raw) = raw
raw_of _ = []

abbrev pub id_of : Scalar → ℕ
id_of (node u) = u
id_of (edge u) = u
id_of _ = 0

abbrev pub nodes_of : Scalar → List ℕ
nodes_of (path nodes edges) = nodes
nodes_of _ = []

abbrev pub edges_of : Scalar → List ℕ
edges_of (path nodes edges) = edges
edges_of _ = []
