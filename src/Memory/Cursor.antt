-- ===== src/Memory/Cursor.antt =====
-- `memCursor` of memory/engine.go. The index -1 is `none`; `keys` and `vals` are made together, and
-- are one list of items here.
pub mod Seeks
use mini_graph_db.Prelude.{
  ℕ, zero, suc, ◌+◌, ◌-◌, Bool, true, false, not, Option, none, some, List, [], ◌∷◌, Ordering,
  if◌then◌else◌, length, get_elem?, ltb, ◌&&◌, ◌==◌, nat_eq,
}
use mini_graph_db.Prelude.Bytes.{Bytes}
use mini_graph_db.Storage.{Keyspace, err_done, Result, ok, err}
use mini_graph_db.Memory.Space.{at_least, above}
use mini_graph_db.Memory.Snapshot.{Item, materialize}
use mini_graph_db.Memory.Engine.{Engine, MemTx}

pub record Cursor : Type 0 where
  pub tx : ℕ
  pub ks : Keyspace
  pub items : List Item
  pub idx : Option ℕ
  pub closed : Bool

unfoldable pub cursor : Engine → ℕ → Keyspace → Result Cursor
cursor e i ks =
    if (e.tx i).done
    then err err_done
    else ok (record { tx = i; ks = ks; items = []; idx = none; closed = false })

abbrev pub usable : Engine → Cursor → Bool
usable e c = not c.closed && not (e.tx c.tx).done

-- `sort.Search` over the item keys.
unfoldable pub search_items : (Bytes → Bool) → List Item → ℕ
search_items test [] = 0
search_items test ((k, v) ∷ l) = if test k then 0 else suc (search_items test l)

-- `c.idx = -1; return false`.
abbrev off : Cursor → Bool × Cursor
off c = (false, record c { idx = none })

abbrev on : Cursor → ℕ → Bool × Cursor
on c i = (true, record c { idx = some i })

-- `c.keys, c.vals = c.tx.materialize(c.ks)`.
abbrev pub loaded : Engine → Cursor → Cursor
loaded e c = record c { items = materialize (e.tx c.tx).snap (e.tx c.tx).writes c.ks }

-- The index that `Seek` looks for; a nil target is the first item.
abbrev seek_index : Option Bytes → List Item → ℕ
seek_index none items = 0
seek_index (some target) items = search_items (at_least target) items

unfoldable pub seek : Engine → Cursor → Option Bytes → Bool × Cursor
unfolding search_items
seek e c target =
    let d = loaded e c in
    let i = seek_index target d.items in
    if not (usable e c) then off c else if ltb i (length d.items) then on d i else off d

-- The number of items at or before the target; a nil target is past them all.
abbrev reverse_index : Option Bytes → List Item → ℕ
reverse_index none items = length items
reverse_index (some target) items = search_items (above target) items

unfoldable pub seek_reverse : Engine → Cursor → Option Bytes → Bool × Cursor
unfolding search_items
seek_reverse e c target =
    let d = loaded e c in
    let i = reverse_index target d.items in
    if not (usable e c) then off c else if i == 0 then off d else on d (i - 1)

abbrev next_from : Cursor → Option ℕ → Bool × Cursor
next_from c none = off c
next_from c (some i) = if ltb (i + 1) (length c.items) then on c (i + 1) else off c

unfoldable pub next : Engine → Cursor → Bool × Cursor
next e c = if usable e c then next_from c c.idx else off c

abbrev prev_from : Cursor → Option ℕ → Bool × Cursor
prev_from c none = off c
prev_from c (some i) = if i == 0 then off c else on c (i - 1)

unfoldable pub prev : Engine → Cursor → Bool × Cursor
prev e c = if usable e c then prev_from c c.idx else off c

abbrev pub item_at : Cursor → Option ℕ → Option Item
item_at c none = none
item_at c (some i) = get_elem? c.items i

-- `Key` and `Value` of the item that the cursor stands on; nil where it stands on none.
unfoldable pub item : Engine → Cursor → Option Item
item e c = if usable e c then item_at c c.idx else none

abbrev is_some : Option Item → Bool
is_some none = false
is_some (some _) = true

unfoldable pub valid : Engine → Cursor → Bool
unfolding item
valid e c = is_some (item e c)

unfoldable pub close : Cursor → Cursor
close c = record c { closed = true; idx = none }
