-- ===== src/Value/Record/Total.antt =====
-- internal/value/record.go: `DecodeRecord` ends on every input, well formed or not.
use mini_graph_db.Prelude.{ℕ, zero, suc, ◌+◌, ◌*◌, ◌≤◌, ◌<◌, ◌≢◌, ap, nat_beq, arith}
use mini_graph_db.Prelude.{Option, none, some, List, [], ◌∷◌, length, length-drop}
use mini_graph_db.Prelude.{Bool-cases, Option-cases, inl, inr, ltb}
use mini_graph_db.Prelude.Bytes.{Bytes}
use mini_graph_db.Prelude.Int.{ℤ}
use mini_graph_db.Value.{
  Kind, kind_null, kind_bool, kind_int, kind_float, kind_string, kind_bytes, kind_date,
  kind_date_time, kind_duration, kind_list, kind_map, kind_node, kind_edge, kind_path, put_entry,
  path_of,
}
use mini_graph_db.Value.{Value, Entries, end}
use mini_graph_db.Value.Uvarint.{read_uvarint, read_uvarint-shorter}
use mini_graph_db.Value.Record.{
  Decoded, done, fail, out_of_fuel, ◌>>=◌, or_truncated, read_zigzag_int, read_blob, read_ids,
  head_byte, decode_zone, is_int32, or_bad_path, decode_scalar, by_kind, kind_of_tag, decode,
  decode_list, decode_map, decode_record, all_read, format_version,
}

-- A result within a bound on what it leaves of the input: an error of the code's, or a value and
-- fewer than `n` bytes.
abbrev pub Within : {A : Type 0} → ℕ → Decoded (A × Bytes) → Type 0
Within n (done p) = length p.1 < n
Within n (fail e) = e ≢ out_of_fuel

weaken : {A : Type 0} (n k : ℕ) (r : Decoded (A × Bytes)) → n ≤ k → Within n r → Within k r
weaken n k (done p) h w = omega (arith, h, w)
weaken n k (fail e) h w = w

bind-Within :
    {A B : Type 0} (n k : ℕ) (r : Decoded (A × Bytes)) (f : A × Bytes → Decoded (B × Bytes))
    → Within n r
    → ((a : A) (rest : Bytes) → length rest < n → Within k (f (a, rest)))
    → Within k (r >>= f)
bind-Within n k (done p) f w h = h p.0 p.1 w
bind-Within n k (fail e) f w h = w

uvarint-Within : (b : Bytes) → Within (length b) (or_truncated (read_uvarint b))
uvarint-Within b = elim (Option-cases (read_uvarint b)) [
  | inl cut ↦ rw cut (λ h. cc)
  | inr ((n, rest), found) ↦ rw found (read_uvarint-shorter n b rest found)
]

zigzag-Within : (b : Bytes) → Within (length b) (read_zigzag_int b)
unfolding read_zigzag_int
zigzag-Within b = bind-Within _ (length b) _ _ (uvarint-Within b) (λ n rest h. h)

blob-Within : (b : Bytes) → Within (length b) (read_blob b)
unfolding read_blob
blob-Within b = bind-Within _ (length b) _ _ (uvarint-Within b) (λ n rest h.
    elim (Bool-cases (ltb (length rest) n)) [
      | inl short ↦ rw short (λ e. cc)
      | inr enough ↦ rw enough (omega (arith, h, length-drop n rest))
    ])

ids-Within : (n : ℕ) (b : Bytes) → Within (suc (length b)) (read_ids n b)
unfolding read_ids
ids-Within zero b = omega arith
ids-Within (suc n) b =
    bind-Within _ _ _ _ (uvarint-Within b)
      (λ id r h. bind-Within _ _ _ _ (ids-Within n r) (λ ids rest k. omega (arith, h, k)))

head-Within : (b : Bytes) → Within (length b) (head_byte b)
head-Within [] = λ h. cc
head-Within (x ∷ b) = omega arith

zone-Within : (n : ℤ) (flag : ℕ) (b : Bytes) → Within (suc (length b)) (decode_zone n flag b)
unfolding decode_zone
zone-Within n zero b = omega arith
zone-Within n (suc flag) b = bind-Within _ _ _ _ (zigzag-Within b) (λ off r h.
    elim (Bool-cases (is_int32 off)) [
      | inl fits ↦ rw fits (omega (arith, h))
      | inr wide ↦ rw wide (λ e. cc)
    ])

path-Within :
    (nodes edges : List ℕ) (rest : Bytes) (n : ℕ)
    → length rest < n
    → Within n (or_bad_path (path_of nodes edges) >>= λ p. done (p, rest))
path-Within nodes edges rest n h = elim (Option-cases (path_of nodes edges)) [
  | inl bad ↦ rw bad (λ e. cc)
  | inr (p, good) ↦ rw good h
]

scalar-Within : (k : Kind) (b : Bytes) → Within (suc (length b)) (decode_scalar k b)
unfolding decode_scalar
scalar-Within kind_null b = omega arith
scalar-Within kind_bool [] = λ h. cc
scalar-Within kind_bool (x ∷ b) = omega arith
scalar-Within kind_int b = bind-Within _ _ _ _ (zigzag-Within b) (λ n rest h. omega (arith, h))
scalar-Within kind_float b = elim (Bool-cases (ltb (length b) 8)) [
  | inl short ↦ rw short (λ h. cc)
  | inr enough ↦ rw enough (omega (arith, length-drop 8 b))
]
scalar-Within kind_string b = bind-Within _ _ _ _ (blob-Within b) (λ s rest h. omega (arith, h))
scalar-Within kind_bytes b = bind-Within _ _ _ _ (blob-Within b) (λ s rest h. omega (arith, h))
scalar-Within kind_date b = bind-Within _ _ _ _ (zigzag-Within b) (λ n rest h. omega (arith, h))
scalar-Within kind_date_time b = bind-Within _ _ _ _ (zigzag-Within b) (λ n r h.
    bind-Within _ _ _ _ (head-Within r)
      (λ flag rest k. weaken _ _ _ (omega (arith, h, k)) (zone-Within n flag rest)))
scalar-Within kind_duration b = bind-Within _ _ _ _ (zigzag-Within b) (λ months r h.
    bind-Within _ _ _ _ (zigzag-Within r)
      (λ days s k. bind-Within _ _ _ _ (zigzag-Within s) (λ nanos rest l. omega (arith, h, k, l))))
scalar-Within kind_list b = λ h. cc
scalar-Within kind_map b = λ h. cc
scalar-Within kind_node b = bind-Within _ _ _ _ (uvarint-Within b) (λ id rest h. omega (arith, h))
scalar-Within kind_edge b = bind-Within _ _ _ _ (uvarint-Within b) (λ id rest h. omega (arith, h))
scalar-Within kind_path b = bind-Within _ _ _ _ (uvarint-Within b) (λ nn r h.
    bind-Within _ _ _ _ (ids-Within nn r) (λ nodes s k.
      bind-Within _ _ _ _ (uvarint-Within s) (λ ne t l.
        bind-Within _ _ _ _ (ids-Within ne t)
          (λ edges rest m. path-Within nodes edges rest _ (omega (arith, h, k, l, m))))))

kind-Within :
    (k : Option Kind) (b : Bytes) (of_list of_map : Decoded (Value × Bytes))
    → Within (suc (length b)) of_list
    → Within (suc (length b)) of_map
    → Within (suc (length b)) (by_kind k b of_list of_map)
unfolding by_kind
kind-Within (some kind_list) b of_list of_map v w = v
kind-Within (some kind_map) b of_list of_map v w = w
kind-Within none b of_list of_map v w = λ e. cc
kind-Within (some k) b of_list of_map v w = scalar-Within k b

mutual
  unfolding decode decode_list decode_map

  decode-Within : (fuel : ℕ) (b : Bytes) → 2 * length b < fuel → Within (length b) (decode fuel b)
  decode-Within zero b h = absurd (omega (arith, h))
  decode-Within (suc fuel) [] h = λ e. cc
  decode-Within (suc fuel) (t ∷ b) h =
      kind-Within (kind_of_tag t) b _ _
        (bind-Within _ _ _ _ (uvarint-Within b) (λ n r l.
          bind-Within _ _ _ _ (list-Within fuel n r (omega (arith, h, l)))
            (λ xs rest m. omega (arith, l, m))))
        (bind-Within _ _ _ _ (uvarint-Within b) (λ n r l.
          bind-Within _ _ _ _ (map-Within fuel n end r (omega (arith, h, l)))
            (λ es rest m. omega (arith, l, m))))

  list-Within :
      (fuel n : ℕ) (b : Bytes)
      → 2 * length b + 1 < fuel
      → Within (suc (length b)) (decode_list fuel n b)
  list-Within zero n b h = absurd (omega (arith, h))
  list-Within (suc fuel) zero b h = omega arith
  list-Within (suc fuel) (suc n) b h =
      bind-Within _ _ _ _ (decode-Within fuel b (omega (arith, h))) (λ el r l.
        bind-Within _ _ _ _ (list-Within fuel n r (omega (arith, h, l)))
          (λ xs rest m. omega (arith, l, m)))

  map-Within :
      (fuel n : ℕ) (m : Entries) (b : Bytes)
      → 2 * length b + 1 < fuel
      → Within (suc (length b)) (decode_map fuel n m b)
  map-Within zero n m b h = absurd (omega (arith, h))
  map-Within (suc fuel) zero m b h = omega arith
  map-Within (suc fuel) (suc n) m b h = bind-Within _ _ _ _ (blob-Within b) (λ key r k.
      bind-Within _ _ _ _ (decode-Within fuel r (omega (arith, h, k))) (λ val s l.
        weaken _ _ _ (omega (arith, k, l))
          (map-Within fuel n (put_entry key val m) s (omega (arith, h, k, l)))))

-- A result within a bound is never the model's own error.
Within-ne : {A : Type 0} (n : ℕ) (r : Decoded (A × Bytes)) → Within n r → r ≢ fail out_of_fuel
Within-ne n (done p) w = λ h. cc
Within-ne n (fail e) w = λ h. w (cc h)

all_read-ne :
    (r : Decoded (Value × Bytes)) → r ≢ fail out_of_fuel → (r >>= all_read) ≢ fail out_of_fuel
unfolding all_read
all_read-ne (done (v, [])) h = λ e. cc
all_read-ne (done (v, (x ∷ rest))) h = λ e. cc
all_read-ne (fail x) h = λ e. h (ap fail (cc e))

-- The fuel of `decode_record` is enough on every input, well formed or not: the recursion of
-- `DecodeRecord` over elements ends. A count that `make` cannot allocate, where Go panics before it reads
-- the elements, is read as far as the input goes here, and is not in question.
pub decode_record-total : (b : Bytes) → decode_record b ≢ fail out_of_fuel
unfolding decode_record
decode_record-total [] = λ h. cc
decode_record-total (version ∷ b) = elim (Bool-cases (nat_beq version format_version)) [
  | inl current ↦
      rw current
        (all_read-ne _ (Within-ne _ _ (decode-Within (suc (2 * length b)) b (omega arith))))
  | inr other ↦ rw other (λ h. cc)
]
