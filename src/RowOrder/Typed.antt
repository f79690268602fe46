-- ===== src/RowOrder/Typed.antt =====
-- src/output/row_order.rs: the keys that are prepared of a batch's columns, against the columns.
use Prim.Native.Nat.{Ordering}
use sqd_query_engine.Prelude.{
  some-inj, ℕ, none, some, List, [], ◌∷◌, map, ◌≡◌, ap, sym, subst, ◌∙◌, inl, inr,
}
use sqd_query_engine.Arrow.{element_type, Column}
use sqd_query_engine.RowOrder.Compare.{then_with, then_with_assoc, then_with-eq}
use sqd_query_engine.RowOrder.Stored.{
  TypedKeys, resolve_paths, compare_one, compare_fixed, compare_tails,
}
use sqd_query_engine.RowOrder.{resolve_sort_column, compare_resolved, typed_keys}
use sqd_query_engine.RowOrder.Pairs.{IsStoredAt, int_pair, path_pair}
use sqd_query_engine.RowOrder.Resolved.{Agrees, typed_keys-cons_some, typed_keys-one_some}

abbrev pub AllStored : List Column → ℕ → Type 0
AllStored [] row = Unit
AllStored (c ∷ cs) row = IsStoredAt c row × AllStored cs row

abbrev pub SameData : List Column → List Column → Type 0
SameData [] [] = Unit
SameData [] (d ∷ ds) = ⊥
SameData (c ∷ cs) [] = ⊥
SameData (c ∷ cs) (d ∷ ds) = (c.data_type ≡ d.data_type) × SameData cs ds

-- The order of two rows by their columns.
abbrev pub by_columns : List Column → ℕ → List Column → ℕ → Ordering
by_columns cs a ds b =
    compare_resolved (map resolve_sort_column cs) a (map resolve_sort_column ds) b

one_Agrees :
    (c d : Column) (a b : ℕ) (x y : TypedKeys)
    → c.data_type ≡ d.data_type
    → IsStoredAt c a
    → IsStoredAt d b
    → typed_keys (c ∷ []) ≡ some x
    → typed_keys (d ∷ []) ≡ some y
    → Agrees x a y b (by_columns (c ∷ []) a (d ∷ []) b)
unfolding compare_fixed compare_tails compare_resolved
one_Agrees c d a b x y same hc hd hx hy = elim (typed_keys-one_some c x hx) [
  | inl (none_c, (i, ei, ex)) ↦ elim (typed_keys-one_some d y hy) [
    | inl (none_d, (j, ej, ey)) ↦
        let (pair, ra, rb, step) = int_pair c d a b i j same hc hd ei ej in
        subst (λ z. Agrees z a y b order) ex
          (subst (λ z. Agrees (record { fixed = i ∷ []; path = none }) a z b order) ey
            (record {
              same_fixed = (pair, tt);
              same_tails = tt;
              left_row = ra;
              right_row = rb;
              by_keys =
                  step [] [] ∙ sym (then_with-eq (then_with (compare_one i a j b) Ordering.eq));
            }))
    | inr (t, p, some_d, ep, ey) ↦ absurd (cc (ap element_type same))
  ]
  | inr (t, p, some_c, ep, ex) ↦ elim (typed_keys-one_some d y hy) [
    | inl (none_d, (j, ej, ey)) ↦ absurd (cc (ap element_type same))
    | inr (u, q, some_d, eq, ey) ↦
        let e : u ≡ t = some-inj (sym some_d ∙ sym (ap element_type same) ∙ some_c) in
        let (pair, ra, rb, step) =
          path_pair c d t a b p q same some_c hc hd ep
            (subst (λ v. resolve_paths d v ≡ some q) e eq) in
        subst (λ z. Agrees z a y b order) ex
          (subst (λ z. Agrees (record { fixed = []; path = some p }) a z b order) ey
            (record {
              same_fixed = tt;
              same_tails = pair;
              left_row = ra;
              right_row = rb;
              by_keys = step;
            }))
  ]
]
  where
    order : Ordering
    order = by_columns (c ∷ []) a (d ∷ []) b

pub typed_keys-Agrees :
    (c : Column) (cs : List Column) (d : Column) (ds : List Column) (a b : ℕ) (x y : TypedKeys)
    → SameData (c ∷ cs) (d ∷ ds)
    → AllStored (c ∷ cs) a
    → AllStored (d ∷ ds) b
    → typed_keys (c ∷ cs) ≡ some x
    → typed_keys (d ∷ ds) ≡ some y
    → Agrees x a y b (by_columns (c ∷ cs) a (d ∷ ds) b)
unfolding compare_fixed
typed_keys-Agrees c [] d [] a b x y same hc hd hx hy = one_Agrees c d a b x y same.0 hc.0 hd.0 hx hy
typed_keys-Agrees c [] d (d' ∷ ds) a b x y same hc hd hx hy = elim (same.1) [ ]
typed_keys-Agrees c (c' ∷ cs) d [] a b x y same hc hd hx hy = elim (same.1) [ ]
typed_keys-Agrees c (c' ∷ cs) d (d' ∷ ds) a b x y same hc hd hx hy =
    let (i, k, ei, ek, ex) = typed_keys-cons_some c c' cs x hx in
    let (j, l, ej, el, ey) = typed_keys-cons_some d d' ds y hy in
    let rest = typed_keys-Agrees c' cs d' ds a b k l same.1 hc.1 hd.1 ek el in
    let (pair, ra, rb, step) = int_pair c d a b i j same.0 hc.0 hd.0 ei ej in
    subst (λ z. Agrees z a y b (by_columns (c ∷ c' ∷ cs) a (d ∷ d' ∷ ds) b)) ex
      (subst
        (λ z.
          Agrees (record { fixed = i ∷ k.fixed; path = k.path }) a z b
            (by_columns (c ∷ c' ∷ cs) a (d ∷ d' ∷ ds) b))
        ey
        (record {
          same_fixed = (pair, rest.same_fixed);
          same_tails = rest.same_tails;
          left_row = ra;
          right_row = rb;
          by_keys =
              step (map resolve_sort_column (c' ∷ cs)) (map resolve_sort_column (d' ∷ ds))
              ∙ ap (then_with (compare_one i a j b)) rest.by_keys
              ∙ sym (
                  then_with_assoc (compare_one i a j b) (compare_fixed k.fixed a l.fixed b)
                    (compare_tails k.path a l.path b));
        }))
