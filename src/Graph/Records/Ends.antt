-- ===== src/Graph/Records/Ends.antt =====
-- The endpoints and the type of an edge are read back from its record.
use mini_graph_db.Prelude.{
  ℕ, ◌-◌, ◌^◌, ◌<◌, ◌≡◌, refl, sym, ap, arith, ◌∙◌, List, [], ◌∷◌, ◌++◌, ltb, false,
}
use mini_graph_db.Prelude.Bytes.{Bytes}
use mini_graph_db.Storage.{Result, ok, err, ◌>>=◌}
use mini_graph_db.Value.Uvarint.{put_uvarint, read_uvarint-put_uvarint}
use mini_graph_db.Graph.{Prop}
use mini_graph_db.Graph.Records.{
  encode_edge, decode_edge, DecodedEdge, uvar, read_byte, read_props, append_props, all_read,
}

-- `From`, `To` and `TypeID`.
pub record Ends : Type 0 where
  pub from : ℕ
  pub to : ℕ
  pub type_id : ℕ

pub record FitEnds (e : Ends) : Type 0 where
  pub from_fits : e.from < 2 ^ 64
  pub to_fits : e.to < 2 ^ 64
  pub type_fits : e.type_id < 2 ^ 32

abbrev pub encode_ends : Ends → List Prop → Bytes
encode_ends e props = encode_edge e.from e.to e.type_id props

pub uvar-put : (n : ℕ) (rest : Bytes) → n < 2 ^ 64 → uvar (put_uvarint n ++ rest) ≡ ok (n, rest)
unfolding uvar
uvar-put n rest h = rw (read_uvarint-put_uvarint n rest h) refl

-- What is left of `decodeEdge` behind the type.
abbrev rest_of : Ends → Bytes → Result DecodedEdge
rest_of e b = do
  (props, b5) ← read_props b
  all_read (record { from = e.from; to = e.to; type_id = e.type_id; props = props }) b5

pub decode_edge-rest :
    (e : Ends) (props : List Prop)
    → FitEnds e
    → decode_edge (encode_ends e props) ≡ rest_of e (append_props props)
unfolding decode_edge encode_edge read_byte
decode_edge-rest e props h =
    let small : ltb (2 ^ 32 - 1) e.type_id ≡ false = ground (arith, h.type_fits) in
    rw
      (
        uvar-put e.from (put_uvarint e.to ++ (put_uvarint e.type_id ++ append_props props))
            h.from_fits,
        uvar-put e.to (put_uvarint e.type_id ++ append_props props) h.to_fits,
        uvar-put e.type_id (append_props props) (omega (arith, h.type_fits)),
        small,
      )
      refl

abbrev pub SameEnds : DecodedEdge → Ends → Type 0
SameEnds d e = (d.from ≡ e.from) × (d.to ≡ e.to) × (d.type_id ≡ e.type_id)

rest_of-ends : (e : Ends) (b : Bytes) (d : DecodedEdge) → rest_of e b ≡ ok d → SameEnds d e
rest_of-ends e b d h = by_props (read_props b) h
  where
    by_all :
        (props : List Prop) (r : Bytes)
        → all_read {A = DecodedEdge}
            (record { from = e.from; to = e.to; type_id = e.type_id; props = props })
            r
          ≡ ok d
        → SameEnds d e
    by_all props [] h = (ground (arith, h), ground (arith, h), ground (arith, h))
    by_all props (x ∷ r) h = absurd (cc)

    by_props :
        (r : Result (List Prop × Bytes))
        → (r >>= λ x.
            all_read {A = DecodedEdge}
              (record { from = e.from; to = e.to; type_id = e.type_id; props = x.0 })
              x.1)
          ≡ ok d
        → SameEnds d e
    by_props (err x) h = absurd (cc)
    by_props (ok (props, r)) h = by_all props r h

pub decode_edge-ends :
    (e : Ends) (props : List Prop) (d : DecodedEdge)
    → FitEnds e
    → decode_edge (encode_ends e props) ≡ ok d
    → SameEnds d e
decode_edge-ends e props d fits h =
    rest_of-ends e (append_props props) d (sym (decode_edge-rest e props fits) ∙ h)

-- The three varints behind the version.
read_ends : Bytes → Result Ends
read_ends b = do
  (ver, b1) ← read_byte b
  (from, b2) ← uvar b1
  (to, b3) ← uvar b2
  (type_id, b4) ← uvar b3
  ok (record { from = from; to = to; type_id = type_id })

read_ends-encode :
    (e : Ends) (props : List Prop) → FitEnds e → read_ends (encode_ends e props) ≡ ok e
unfolding read_ends encode_edge read_byte
read_ends-encode e props h =
    rw
      (
        uvar-put e.from (put_uvarint e.to ++ (put_uvarint e.type_id ++ append_props props))
            h.from_fits,
        uvar-put e.to (put_uvarint e.type_id ++ append_props props) h.to_fits,
        uvar-put e.type_id (append_props props) (omega (arith, h.type_fits)),
      )
      refl

-- Edges with the same record have the same ends.
pub encode_ends-inj :
    (e e' : Ends) (props props' : List Prop)
    → FitEnds e
    → FitEnds e'
    → encode_ends e props ≡ encode_ends e' props'
    → e ≡ e'
encode_ends-inj e e' props props' h h' same =
    let a = read_ends-encode e props h in
    let b = read_ends-encode e' props' h' in cc (a, b, ap read_ends same)
