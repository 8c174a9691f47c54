-- ===== src/Graph/Keys/Apart.antt =====
-- The keys of keys.go name what they were built from.
use mini_graph_db.Prelude.{
  ℕ, ◌^◌, ◌<◌, ◌≡◌, refl, sym, ap, arith, ◌∙◌, true, some, [], ◌∷◌, ◌++◌, length, drop, nat_eq,
}
use mini_graph_db.Prelude.Bytes.{
  Bytes, put_uint64, uint64, put_uint32, uint32, uint64-put_uint64, uint32-put_uint32, bytes_eq,
}
use mini_graph_db.Graph.Keys.{id_key, out_key, in_key, type_key, parse_adj}
use mini_graph_db.Txn.Versions.{has_prefix}

drop-id : (a : ℕ) (rest : Bytes) → drop 8 (put_uint64 a ++ rest) ≡ rest
unfolding put_uint64
drop-id a rest = refl

drop-type : (a ty : ℕ) (rest : Bytes) → drop 12 (put_uint64 a ++ (put_uint32 ty ++ rest)) ≡ rest
unfolding put_uint64 put_uint32
drop-type a ty rest = refl

drop-other :
    (a ty c : ℕ) (rest : Bytes)
    → drop 20 (put_uint64 a ++ (put_uint32 ty ++ (put_uint64 c ++ rest))) ≡ rest
unfolding put_uint64 put_uint32
drop-other a ty c rest = refl

length-adjacency :
    (a ty c d : ℕ) → length (put_uint64 a ++ (put_uint32 ty ++ (put_uint64 c ++ put_uint64 d))) ≡ 28
unfolding put_uint64 put_uint32
length-adjacency a ty c d = refl

pub id_key-inj : (a b : ℕ) → a < 2 ^ 64 → b < 2 ^ 64 → id_key a ≡ id_key b → a ≡ b
unfolding id_key
id_key-inj a b ha hb e =
    sym (uint64-put_uint64 a [] ha) ∙ ap (λ k. uint64 (k ++ [])) e ∙ uint64-put_uint64 b [] hb

pub uint64-id_key : (id : ℕ) → id < 2 ^ 64 → uint64 (id_key id) ≡ id
unfolding id_key put_uint64 uint64
uint64-id_key id h = omega arith

pub parse_adj-out_key :
    (from ty to id : ℕ)
    → from < 2 ^ 64
    → ty < 2 ^ 32
    → to < 2 ^ 64
    → id < 2 ^ 64
    → parse_adj (out_key from ty to id)
      ≡ some (record { a = from; type_id = ty; b = to; edge_id = id })
unfolding parse_adj out_key
parse_adj-out_key from ty to id hf hy ht hi =
    let last : uint64 (put_uint64 id) ≡ id = unfold id_key in uint64-id_key id hi in
    rw
      (
        length-adjacency from ty to id,
        uint64-put_uint64 from (put_uint32 ty ++ (put_uint64 to ++ put_uint64 id)) hf,
        drop-id from (put_uint32 ty ++ (put_uint64 to ++ put_uint64 id)),
        uint32-put_uint32 ty (put_uint64 to ++ put_uint64 id) hy,
        drop-type from ty (put_uint64 to ++ put_uint64 id),
        uint64-put_uint64 to (put_uint64 id) ht,
        drop-other from ty to (put_uint64 id),
        last,
      )
      refl

pub in_key-out_key : (to ty from id : ℕ) → in_key to ty from id ≡ out_key to ty from id
unfolding in_key out_key
in_key-out_key to ty from id = refl

has_prefix-append : (p rest : Bytes) → has_prefix p (p ++ rest) ≡ true
unfolding has_prefix
has_prefix-append [] rest = refl
has_prefix-append (x ∷ p) rest = ground (arith, has_prefix-append p rest)

has_prefix-eq : (p k rest : Bytes) → length p ≡ length k → has_prefix p (k ++ rest) ≡ true → p ≡ k
unfolding has_prefix
has_prefix-eq [] [] rest same e = refl
has_prefix-eq [] (y ∷ k) rest same e = absurd (omega (arith, same))
has_prefix-eq (x ∷ p) [] rest same e = absurd (omega (arith, same))
has_prefix-eq (x ∷ p) (y ∷ k) rest same e =
    ground (arith, has_prefix-eq p k rest (omega (arith, same)), e)

pub has_prefix-out_key :
    (from ty to id : ℕ) → has_prefix (id_key from) (out_key from ty to id) ≡ true
unfolding id_key out_key
has_prefix-out_key from ty to id = has_prefix-append (put_uint64 from) _

length-id : (a b : ℕ) → length (put_uint64 a) ≡ length (put_uint64 b)
unfolding put_uint64
length-id a b = refl

pub prefix_of-out_key :
    (n from ty to id : ℕ)
    → n < 2 ^ 64
    → from < 2 ^ 64
    → has_prefix (id_key n) (out_key from ty to id) ≡ true
    → n ≡ from
unfolding id_key out_key
prefix_of-out_key n from ty to id hn hf e =
    let same = has_prefix-eq (put_uint64 n) (put_uint64 from) _ (length-id n from) e in
    unfold id_key in id_key-inj n from hn hf same

uint64-behind : (ty id : ℕ) → id < 2 ^ 64 → uint64 (drop 4 (put_uint32 ty ++ put_uint64 id)) ≡ id
unfolding put_uint64 put_uint32 uint64
uint64-behind ty id h = omega arith

pub type_key-inj :
    (ty id uy jd : ℕ)
    → ty < 2 ^ 32
    → id < 2 ^ 64
    → uy < 2 ^ 32
    → jd < 2 ^ 64
    → type_key ty id ≡ type_key uy jd
    → (ty ≡ uy) × (id ≡ jd)
unfolding type_key
type_key-inj ty id uy jd h1 h2 h3 h4 e = (
  sym (uint32-put_uint32 ty (put_uint64 id) h1) ∙ ap uint32 e ∙ uint32-put_uint32 uy _ h3,
  sym (uint64-behind ty id h2) ∙ ap (λ k. uint64 (drop 4 k)) e ∙ uint64-behind uy jd h4,
)
