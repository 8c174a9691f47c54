-- ===== src/Txn/Version/Codec.antt =====
-- Round trips of the encodings of version.go, and what visibility means.
use mini_graph_db.Prelude.{ℕ, ◌^◌, ◌%◌, ◌≤◌, ◌<◌, true, false, ◌≡◌, ◌↔◌, ◌⊎◌, arith}
use mini_graph_db.Prelude.Bytes.{Bytes}
use mini_graph_db.Storage.{ok}
use mini_graph_db.Txn.Version.{
  visible, encode_head, decode_head, encode_chain, decode_chain, Oracle, encode_oracle,
  decode_oracle,
}

-- A version is visible at a snapshot exactly when it was created at or before it, and is neither
-- superseded nor deleted, or only after it.
pub visible_iff :
    (create delete snap : ℕ)
    → (visible create delete snap ≡ true) ↔ ((create ≤ snap) × ((delete ≡ 0) ⊎ (snap < delete)))
unfolding visible
visible_iff create delete snap = (λ h. (ground arith, ground arith), λ h. ground arith)

-- A head record is read back as it was written.
pub decode_head-encode_head :
    (create delete : ℕ) (payload : Bytes)
    → create < 2 ^ 64
    → delete < 2 ^ 64
    → decode_head (encode_head create delete payload)
      ≡ record { create = create; delete = delete; payload = payload; legacy = false }
unfolding encode_head decode_head
decode_head-encode_head create delete payload hc hd = ground arith

-- A chain record is read back as it was written; its create timestamp stands in the key.
pub decode_chain-encode_chain :
    (delete : ℕ) (payload : Bytes)
    → delete < 2 ^ 64
    → decode_chain (encode_chain delete payload)
      ≡ ok (record { create = 0; delete = delete; payload = payload; legacy = false })
unfolding encode_chain decode_chain
decode_chain-encode_chain delete payload h = ground arith

-- The oracle record is read back as it was written.
pub decode_oracle-encode_oracle :
    (o : Oracle)
    → o.next_txn < 2 ^ 64
    → o.commit_ts < 2 ^ 64
    → decode_oracle (encode_oracle o) ≡ ok o
unfolding encode_oracle decode_oracle
decode_oracle-encode_oracle o hn hc = ground arith

-- A wider transaction number is stored modulo 2^64.
pub decode_oracle-encode_oracle_wrap :
    (o : Oracle)
    → o.commit_ts < 2 ^ 64
    → decode_oracle (encode_oracle o)
      ≡ ok (record { next_txn = o.next_txn % 2 ^ 64; commit_ts = o.commit_ts })
unfolding encode_oracle decode_oracle
decode_oracle-encode_oracle_wrap o hc = ground arith
