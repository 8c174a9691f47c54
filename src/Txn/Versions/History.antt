-- ===== src/Txn/Versions/History.antt =====
-- One key's history, a head and the chain behind it: what `publish` does to it, and what a snapshot
-- reads of it.
use mini_graph_db.Prelude.{
  ℕ, ◌<◌, ◌≤◌, Bool, true, false, Option, none, some, List, [], ◌∷◌, ◌++◌, ◌≡◌, ◌≢◌, ◌⊎◌, refl,
  arith, All, if◌then◌else◌, ltb, nat_eq, ◌==◌,
}
use mini_graph_db.Prelude.Bytes.{Bytes}
use mini_graph_db.Txn.Version.{Head, visible}
use mini_graph_db.Txn.Versions.{better, best_visible, visible_payload}

-- What `readAt` finds: nothing where there is no head.
abbrev pub at_snapshot : Option Head → List Head → ℕ → Option Bytes
at_snapshot none chain snap = none
at_snapshot (some h) chain snap = visible_payload (some h) chain snap

-- The head that `publish` writes for a put, and the record that `archive` keeps of the one before.
abbrev pub fresh : ℕ → Bytes → Head
fresh cts val = record { create = cts; delete = 0; payload = val; legacy = false }

abbrev pub archived : ℕ → Head → Head
archived cts h = record {
  create = h.create;
  delete = if h.delete == 0 then cts else h.delete;
  payload = h.payload;
  legacy = false;
}

-- The head that `publish` writes for a delete of a live key.
abbrev pub tombstoned : ℕ → Head → Head
tombstoned cts h = record { create = h.create; delete = cts; payload = h.payload; legacy = false }

-- A head written at or before `ts`.
pub record HeadFits (ts : ℕ) (h : Head) : Type 0 where
  pub created : h.create ≤ ts
  pub ended : h.delete ≤ ts
  pub in_order : (h.delete ≡ 0) ⊎ (h.create ≤ h.delete)

-- A version behind a head that was created at `m`.
pub record IsBehind (m : ℕ) (v : Head) : Type 0 where
  pub older : v.create < m
  pub superseded : v.delete ≢ 0
  pub by_then : v.delete ≤ m

best_visible-append :
    (snap : ℕ) (chain : List Head) (v : Head) (acc : Option Head)
    → best_visible snap (chain ++ v ∷ []) acc ≡ (
        if visible v.create v.delete snap
        then better v (best_visible snap chain acc)
        else best_visible snap chain acc)
unfolding best_visible
best_visible-append snap [] v acc = refl
best_visible-append snap (x ∷ chain) v acc = best_visible-append snap chain v _

abbrev IsUnder : ℕ → Option Head → Type 0
IsUnder m none = Unit {0}
IsUnder m (some h) = h.create < m

better-IsUnder :
    (m : ℕ) (v : Head) (acc : Option Head) → v.create < m → IsUnder m acc → IsUnder m (better v acc)
better-IsUnder m v none h u = h
better-IsUnder m v (some b) h u = ground arith

best_visible-IsUnder :
    (m snap : ℕ) (chain : List Head) (acc : Option Head)
    → All (IsBehind m) chain
    → IsUnder m acc
    → IsUnder m (best_visible snap chain acc)
unfolding best_visible
best_visible-IsUnder m snap [] acc all u = u
best_visible-IsUnder m snap (v ∷ chain) acc all u =
    best_visible-IsUnder m snap chain _ all.1 (step (visible v.create v.delete snap))
  where
    step : (b : Bool) → IsUnder m (if b then better v acc else acc)
    step true = better-IsUnder m v acc all.0.older u
    step false = u

better-newest : (v : Head) (acc : Option Head) → IsUnder v.create acc → better v acc ≡ some v
better-newest v none u = refl
better-newest v (some b) u = ground arith

-- At or after the head's creation nothing of the chain behind it is visible.
best_visible-late :
    (m snap : ℕ) (chain : List Head)
    → All (IsBehind m) chain
    → m ≤ snap
    → best_visible snap chain none ≡ none
unfolding best_visible visible
best_visible-late m snap [] all h = refl
best_visible-late m snap (v ∷ chain) all h =
    ground (arith, best_visible-late m snap chain all.1 h, all.0.superseded, all.0.by_then)

module _ (ts cts snap : ℕ) (h : Head) (chain : List Head) (fits : HeadFits ts h)
    (later : ts < cts) where
  -- A delete does not show before its timestamp, and shows from then on.
  pub at_snapshot-tombstoned :
      h.delete ≡ 0
      → at_snapshot (some (tombstoned cts h)) chain snap
        ≡ (if ltb snap cts then at_snapshot (some h) chain snap else none)
  unfolding visible_payload visible
  at_snapshot-tombstoned live = ground (arith, fits.created)

  -- A key that is deleted stays so.
  pub at_snapshot-dead :
      (h.delete == 0) ≡ false
      → at_snapshot (some h) chain snap
        ≡ (if ltb snap cts then at_snapshot (some h) chain snap else none)
  unfolding visible_payload visible
  at_snapshot-dead dead = ground (arith, fits.created, fits.ended)

  before :
      All (IsBehind h.create) chain
      → snap < cts
      → at_snapshot (some (fresh cts h.payload)) (chain ++ archived cts h ∷ []) snap
        ≡ at_snapshot (some h) chain snap
  unfolding visible_payload visible
  before behind early = ground (
    arith,
    best_visible-append snap chain (archived cts h) none,
    better-newest (archived cts h) (best_visible snap chain none)
        (best_visible-IsUnder h.create snap chain none behind tt),
    best_visible-late h.create snap chain behind,
    fits.created,
    fits.ended,
    fits.in_order,
  )

  -- Neither does a put.
  pub at_snapshot-put :
      (val : Bytes)
      → All (IsBehind h.create) chain
      → at_snapshot (some (fresh cts val)) (chain ++ archived cts h ∷ []) snap
        ≡ (if ltb snap cts then at_snapshot (some h) chain snap else some val)
  unfolding visible_payload visible
  at_snapshot-put val behind = ground (arith, before behind)

-- The first put of a key.
pub at_snapshot-first :
    (cts snap : ℕ) (val : Bytes)
    → at_snapshot (some (fresh cts val)) [] snap ≡ (if ltb snap cts then none else some val)
unfolding visible_payload visible best_visible
at_snapshot-first cts snap val = ground arith

-- What stays behind a new head.
pub IsBehind-archived :
    (ts cts : ℕ) (h : Head) → HeadFits ts h → ts < cts → IsBehind cts (archived cts h)
IsBehind-archived ts cts h fits later = record {
  older = omega (arith, fits.created);
  superseded = ground arith;
  by_then = ground (arith, fits.ended);
}
