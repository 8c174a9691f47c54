-- ===== src/Memory/Cursor/Seeks.antt =====
-- Walking a cursor.
use mini_graph_db.Prelude.{
  ℕ, zero, suc, ◌+◌, true, none, some, List, [], ◌∷◌, ◌≡◌, refl, arith, if◌then◌else◌, length,
  get_elem?, drop, ltb, Option-cases, Bool-cases, inl, inr, sym, ap, ◌∙◌, ◌≤◌,
}
use native.Mathlib.Numerals.{add-one}
use mini_graph_db.Prelude.Bytes.{Bytes, bytes_eq}
use mini_graph_db.Memory.Space.{at_least}
use mini_graph_db.Memory.Snapshot.{Item}
use mini_graph_db.Memory.Engine.{Engine}
use mini_graph_db.Memory.Cursor.{Cursor, usable, loaded, seek, next, item, search_items}

-- The items from a position on, as `Key`, `Value` and `Next` give them; the rounds are bounded.
unfoldable pub walk : Engine → Cursor → ℕ → List Item
walk e c zero = []
walk e c (suc n) = elim (item e c) [ none ↦ [] | some x ↦ x ∷ walk e (next e c).1 n ]

-- The items whose keys are at least `target`.
abbrev pub from : Bytes → List Item → List Item
from target [] = []
from target ((k, v) ∷ l) =
    let rest = from target l in if at_least target k then (k, v) ∷ l else rest

drop-search_items :
    (target : Bytes) (l : List Item) → drop (search_items (at_least target) l) l ≡ from target l
unfolding search_items
drop-search_items target [] = refl
drop-search_items target ((k, v) ∷ l) = ground (arith, drop-search_items target l)

drop-past {ℓ} : {A : Type ℓ} (i : ℕ) (l : List A) → length l ≤ i → drop i l ≡ []
drop-past zero [] h = refl
drop-past zero (x ∷ l) h = absurd (omega arith)
drop-past (suc i) [] h = refl
drop-past (suc i) (x ∷ l) h = drop-past i l (omega arith)

drop-get_elem? {ℓ} :
    {A : Type ℓ} (i : ℕ) (l : List A) (x : A)
    → get_elem? l i ≡ some x
    → drop i l ≡ x ∷ drop (suc i) l
drop-get_elem? i [] x h = cc
drop-get_elem? zero (y ∷ l) x h = ground arith
drop-get_elem? (suc i) (y ∷ l) x h = drop-get_elem? i l x h

drop-none {ℓ} : {A : Type ℓ} (i : ℕ) (l : List A) → get_elem? l i ≡ none → drop i l ≡ []
drop-none zero [] h = refl
drop-none (suc i) [] h = refl
drop-none zero (y ∷ l) h = cc
drop-none (suc i) (y ∷ l) h = drop-none i l h

walk-none : (e : Engine) (c : Cursor) (n : ℕ) → item e c ≡ none → walk e c n ≡ []
unfolding walk
walk-none e c zero h = refl
walk-none e c (suc n) h = ground arith

walk-some :
    (e : Engine) (c : Cursor) (n : ℕ) (x : Item)
    → item e c ≡ some x
    → walk e c (suc n) ≡ x ∷ walk e (next e c).1 n
unfolding walk
walk-some e c n x h = ground arith

module _ (e : Engine) (c : Cursor) (good : usable e c ≡ true) where
  item-off : item e (record c { idx = none }) ≡ none
  unfolding item
  item-off = ground arith

  item-on : (i : ℕ) → item e (record c { idx = some i }) ≡ get_elem? c.items i
  unfolding item
  item-on i = ground arith

  walk-next :
      (i n : ℕ)
      → walk e (record c { idx = some (i + 1) }) n ≡ drop (i + 1) c.items
      → walk e (next e (record c { idx = some i })).1 n ≡ drop (i + 1) c.items
  unfolding next
  walk-next i n later = elim (Bool-cases (ltb (i + 1) (length c.items))) [
    | inl more ↦ rw (good, more) later
    | inr end ↦
        rw (good, end)
          (walk-none e (record c { idx = none }) n item-off
            ∙ sym (drop-past (i + 1) c.items (ground arith)))
  ]

  -- With enough rounds a walk gives every item from the position on.
  walk-on :
      (n i : ℕ) → length c.items ≤ n + i → walk e (record c { idx = some i }) n ≡ drop i c.items
  walk-on zero i h = unfold walk in sym (drop-past i c.items (omega arith))
  walk-on (suc n) i h = elim (Option-cases (get_elem? c.items i)) [
    | inl gone ↦
        walk-none e (record c { idx = some i }) (suc n) (item-on i ∙ gone)
        ∙ sym (drop-none i c.items gone)
    | inr (x, there) ↦
        walk-some e (record c { idx = some i }) n x (item-on i ∙ there)
        ∙ ap (λ (l : List Item). x ∷ l) (walk-next i n (walk-on n (i + 1) (omega arith)))
        ∙ ap (λ (m : ℕ). x ∷ drop m c.items) (add-one i)
        ∙ sym (drop-get_elem? i c.items x there)
  ]

-- Seeking a target and walking to the end meets, in order, exactly the items of the transaction's
-- view whose keys are at least the target; the view has one item for each key (`IsOrdered`).
pub walk-seek :
    (e : Engine) (c : Cursor) (target : Bytes)
    → usable e c ≡ true
    → walk e (seek e c (some target)).1 (length (loaded e c).items) ≡ from target (loaded e c).items
unfolding seek
walk-seek e c target good =
    let d = loaded e c in
    let i = search_items (at_least target) d.items in
    elim (Bool-cases (ltb i (length d.items))) [
      | inl more ↦
          rw (good, more)
            (walk-on e d good (length d.items) i (omega arith) ∙ drop-search_items target d.items)
      | inr end ↦
          rw (good, end)
            (walk-none e (record d { idx = none }) (length d.items) (item-off e d good)
              ∙ sym (drop-past i d.items (ground arith))
              ∙ drop-search_items target d.items)
    ]

-- A seek without a target and a walk meet the whole view.
pub walk-seek_all :
    (e : Engine) (c : Cursor)
    → usable e c ≡ true
    → walk e (seek e c none).1 (length (loaded e c).items) ≡ (loaded e c).items
unfolding seek
walk-seek_all e c good =
    let d = loaded e c in
    elim (Bool-cases (ltb 0 (length d.items))) [
      | inl more ↦ rw (good, more) (walk-on e d good (length d.items) 0 (omega arith))
      | inr end ↦
          rw (good, end)
            (walk-none e (record d { idx = none }) (length d.items) (item-off e d good)
              ∙ sym (drop-past 0 d.items (ground arith)))
    ]
