-- ===== src/Value/Compare/Total.antt =====
-- internal/value/compare.go: `Compare` is a total order in which equal values stand for each other.
use mini_graph_db.Prelude.{◌≡◌, ◌≢◌, refl, Ordering, arith}
use mini_graph_db.Prelude.Bytes.{compare_bytes-flip, flip}
use mini_graph_db.Value.{Scalar, scalar_kind, null}
use mini_graph_db.Value.{Value, scalar, list, map, Values, nil, cons, Entries, end, entry}
use mini_graph_db.Value.Compare.{kind_rank, rank, compare_values, compare_lists, compare_maps}
use mini_graph_db.Value.Compare.Scalars.{HasInt64, compare_kind-flip, compare_kind-Chain}
use mini_graph_db.Value.Flip.{compare_nat-flip}
use mini_graph_db.Value.Chain.{Chain, chain_of, and_then-Chain, nat-Chain, bytes-Chain}

-- The ints a value holds are int64.
abbrev mutual
  pub HasInts : Value → Type 0
  HasInts (scalar s) = HasInt64 s
  HasInts (list xs) = HasIntsList xs
  HasInts (map es) = HasIntsMap es

  pub HasIntsList : Values → Type 0
  HasIntsList nil = Unit
  HasIntsList (cons x xs) = HasInts x × HasIntsList xs

  pub HasIntsMap : Entries → Type 0
  HasIntsMap end = Unit
  HasIntsMap (entry k v es) = HasInts v × HasIntsMap es

-- The ranks of lists and of maps are their own.
ranks : (s : Scalar) → (kind_rank (scalar_kind s) ≢ 8) × (kind_rank (scalar_kind s) ≢ 9)
ranks null = (λ h. omega (arith, h), λ h. omega (arith, h))
ranks _ = (λ h. omega (arith, h), λ h. omega (arith, h))

scalars-flip :
    (a b : Scalar)
    → HasInt64 a
    → HasInt64 b
    → compare_values (scalar b) (scalar a) ≡ flip (compare_values (scalar a) (scalar b))
unfolding compare_values
scalars-flip a b ha hb = ground (arith, compare_kind-flip a b ha hb)

scalars-Chain :
    (a b c : Scalar)
    → HasInt64 a
    → HasInt64 b
    → HasInt64 c
    → Chain
        (compare_values (scalar a) (scalar b))
        (compare_values (scalar b) (scalar c))
        (compare_values (scalar a) (scalar c))
unfolding compare_values
scalars-Chain a b c ha hb hc =
    and_then-Chain _ _ _ _ _ _ (nat-Chain _ _ _)
      (λ h k. compare_kind-Chain a b c ha hb hc (ground (arith, h)) (ground (arith, k)))

mutual
  unfolding compare_values compare_lists compare_maps

  values-flip :
      (a b : Value) → HasInts a → HasInts b → compare_values b a ≡ flip (compare_values a b)
  values-flip (scalar a) (scalar b) ha hb = scalars-flip a b ha hb
  values-flip (list xs) (list ys) ha hb = lists-flip xs ys ha hb
  values-flip (map xs) (map ys) ha hb = maps-flip xs ys ha hb
  values-flip a b ha hb = compare_nat-flip (rank a) (rank b)

  lists-flip :
      (a b : Values) → HasIntsList a → HasIntsList b → compare_lists b a ≡ flip (compare_lists a b)
  lists-flip nil nil ha hb = refl
  lists-flip nil (cons y ys) ha hb = refl
  lists-flip (cons x xs) nil ha hb = refl
  lists-flip (cons x xs) (cons y ys) ha hb =
      ground (arith, values-flip x y ha.0 hb.0, lists-flip xs ys ha.1 hb.1)

  maps-flip :
      (a b : Entries) → HasIntsMap a → HasIntsMap b → compare_maps b a ≡ flip (compare_maps a b)
  maps-flip end end ha hb = refl
  maps-flip end (entry k w ys) ha hb = refl
  maps-flip (entry j v xs) end ha hb = refl
  maps-flip (entry j v xs) (entry k w ys) ha hb =
      ground (arith, compare_bytes-flip j k, values-flip v w ha.0 hb.0, maps-flip xs ys ha.1 hb.1)

mutual
  unfolding compare_values compare_lists compare_maps

  values-Chain :
      (a b c : Value)
      → HasInts a
      → HasInts b
      → HasInts c
      → Chain (compare_values a b) (compare_values b c) (compare_values a c)
  values-Chain (scalar a) (scalar b) (scalar c) ha hb hc = scalars-Chain a b c ha hb hc
  values-Chain (list xs) (list ys) (list zs) ha hb hc = lists-Chain xs ys zs ha hb hc
  values-Chain (map xs) (map ys) (map zs) ha hb hc = maps-Chain xs ys zs ha hb hc
  values-Chain (scalar a) (scalar b) (list c) ha hb hc =
      chain_of (ground (arith, ranks a, ranks b)) (ground (arith, ranks a, ranks b))
        (ground (arith, ranks a, ranks b)) (ground (arith, ranks a, ranks b))
  values-Chain (scalar a) (scalar b) (map c) ha hb hc =
      chain_of (ground (arith, ranks a, ranks b)) (ground (arith, ranks a, ranks b))
        (ground (arith, ranks a, ranks b)) (ground (arith, ranks a, ranks b))
  values-Chain (scalar a) (list b) (scalar c) ha hb hc =
      chain_of (ground (arith, ranks a, ranks c)) (ground (arith, ranks a, ranks c))
        (ground (arith, ranks a, ranks c)) (ground (arith, ranks a, ranks c))
  values-Chain (scalar a) (list b) (list c) ha hb hc =
      chain_of (ground (arith, ranks a)) (ground (arith, ranks a)) (ground (arith, ranks a))
        (ground (arith, ranks a))
  values-Chain (scalar a) (list b) (map c) ha hb hc =
      chain_of (ground (arith, ranks a)) (ground (arith, ranks a)) (ground (arith, ranks a))
        (ground (arith, ranks a))
  values-Chain (scalar a) (map b) (scalar c) ha hb hc =
      chain_of (ground (arith, ranks a, ranks c)) (ground (arith, ranks a, ranks c))
        (ground (arith, ranks a, ranks c)) (ground (arith, ranks a, ranks c))
  values-Chain (scalar a) (map b) (list c) ha hb hc =
      chain_of (ground (arith, ranks a)) (ground (arith, ranks a)) (ground (arith, ranks a))
        (ground (arith, ranks a))
  values-Chain (scalar a) (map b) (map c) ha hb hc =
      chain_of (ground (arith, ranks a)) (ground (arith, ranks a)) (ground (arith, ranks a))
        (ground (arith, ranks a))
  values-Chain (list a) (scalar b) (scalar c) ha hb hc =
      chain_of (ground (arith, ranks b, ranks c)) (ground (arith, ranks b, ranks c))
        (ground (arith, ranks b, ranks c)) (ground (arith, ranks b, ranks c))
  values-Chain (list a) (scalar b) (list c) ha hb hc =
      chain_of (ground (arith, ranks b)) (ground (arith, ranks b)) (ground (arith, ranks b))
        (ground (arith, ranks b))
  values-Chain (list a) (scalar b) (map c) ha hb hc =
      chain_of (ground (arith, ranks b)) (ground (arith, ranks b)) (ground (arith, ranks b))
        (ground (arith, ranks b))
  values-Chain (list a) (list b) (scalar c) ha hb hc =
      chain_of (ground (arith, ranks c)) (ground (arith, ranks c)) (ground (arith, ranks c))
        (ground (arith, ranks c))
  values-Chain (list a) (list b) (map c) ha hb hc =
      chain_of (ground (arith)) (ground (arith)) (ground (arith)) (ground (arith))
  values-Chain (list a) (map b) (scalar c) ha hb hc =
      chain_of (ground (arith, ranks c)) (ground (arith, ranks c)) (ground (arith, ranks c))
        (ground (arith, ranks c))
  values-Chain (list a) (map b) (list c) ha hb hc =
      chain_of (ground (arith)) (ground (arith)) (ground (arith)) (ground (arith))
  values-Chain (list a) (map b) (map c) ha hb hc =
      chain_of (ground (arith)) (ground (arith)) (ground (arith)) (ground (arith))
  values-Chain (map a) (scalar b) (scalar c) ha hb hc =
      chain_of (ground (arith, ranks b, ranks c)) (ground (arith, ranks b, ranks c))
        (ground (arith, ranks b, ranks c)) (ground (arith, ranks b, ranks c))
  values-Chain (map a) (scalar b) (list c) ha hb hc =
      chain_of (ground (arith, ranks b)) (ground (arith, ranks b)) (ground (arith, ranks b))
        (ground (arith, ranks b))
  values-Chain (map a) (scalar b) (map c) ha hb hc =
      chain_of (ground (arith, ranks b)) (ground (arith, ranks b)) (ground (arith, ranks b))
        (ground (arith, ranks b))
  values-Chain (map a) (list b) (scalar c) ha hb hc =
      chain_of (ground (arith, ranks c)) (ground (arith, ranks c)) (ground (arith, ranks c))
        (ground (arith, ranks c))
  values-Chain (map a) (list b) (list c) ha hb hc =
      chain_of (ground (arith)) (ground (arith)) (ground (arith)) (ground (arith))
  values-Chain (map a) (list b) (map c) ha hb hc =
      chain_of (ground (arith)) (ground (arith)) (ground (arith)) (ground (arith))
  values-Chain (map a) (map b) (scalar c) ha hb hc =
      chain_of (ground (arith, ranks c)) (ground (arith, ranks c)) (ground (arith, ranks c))
        (ground (arith, ranks c))
  values-Chain (map a) (map b) (list c) ha hb hc =
      chain_of (ground (arith)) (ground (arith)) (ground (arith)) (ground (arith))

  lists-Chain :
      (a b c : Values)
      → HasIntsList a
      → HasIntsList b
      → HasIntsList c
      → Chain (compare_lists a b) (compare_lists b c) (compare_lists a c)
  lists-Chain (cons x xs) (cons y ys) (cons z zs) ha hb hc =
      and_then-Chain _ _ _ _ _ _ (values-Chain x y z ha.0 hb.0 hc.0)
        (λ _ _. lists-Chain xs ys zs ha.1 hb.1 hc.1)
  lists-Chain a b c ha hb hc = chain_of (ground arith) (ground arith) (ground arith) (ground arith)

  maps-Chain :
      (a b c : Entries)
      → HasIntsMap a
      → HasIntsMap b
      → HasIntsMap c
      → Chain (compare_maps a b) (compare_maps b c) (compare_maps a c)
  maps-Chain (entry i u xs) (entry j v ys) (entry k w zs) ha hb hc =
      and_then-Chain _ _ _ _ _ _ (bytes-Chain i j k) (λ _ _.
        and_then-Chain _ _ _ _ _ _ (values-Chain u v w ha.0 hb.0 hc.0)
          (λ _ _. maps-Chain xs ys zs ha.1 hb.1 hc.1))
  maps-Chain a b c ha hb hc = chain_of (ground arith) (ground arith) (ground arith) (ground arith)

-- `Compare` of swapped arguments is the opposite, so a value compares equal to itself.
pub compare_values-flip :
    (a b : Value)
    → HasInts a
    → HasInts b
    → (compare_values b a ≡ flip (compare_values a b)) × (compare_values a a ≡ Ordering.eq)
compare_values-flip a b ha hb = (values-flip a b ha hb, ground (arith, values-flip a a ha ha))

-- `Compare` is transitive, and values that compare equal compare alike with every third value:
-- each kind alone, ints with floats, nested lists and maps, and values of different kinds.
pub compare_values-Chain :
    (a b c : Value)
    → HasInts a
    → HasInts b
    → HasInts c
    → Chain (compare_values a b) (compare_values b c) (compare_values a c)
compare_values-Chain a b c ha hb hc = values-Chain a b c ha hb hc
