-- ===== src/Predicate/Groups.antt =====
-- src/scan/predicate.rs: the masks of a row filter's groups, and what statistics skip of them.
use Prim.Native.String.{String}
use sqd_query_engine.Prelude.{
  any-map, ℕ, ◌<◌, Bool, true, false, ◌&&◌, ◌||◌, not, List, [], ◌∷◌, map, any, all, Option, none,
  some, ◌≡◌, arith, refl, sym, ◌∙◌, ap, Bool-cases, &&_iff, ◌⊎◌, Option-cases, inl, inr,
}
use sqd_query_engine.Predicate.Mask.{BooleanArray, Mask, masked, unsupported, or_all, kept, keeps}
use sqd_query_engine.Predicate.Kept.{kept-and, kept-or_all, keeps-and_all, keeps-or_all, is_masked}
use sqd_query_engine.Predicate.Scalar.{StatRange}
use sqd_query_engine.Predicate.Column.{Array, Libraries, evaluate}
use sqd_query_engine.Predicate.Skip.{can_skip}
use sqd_query_engine.Predicate.Outside.{Within}
use sqd_query_engine.Predicate.Pruning.{can_skip-evaluate}
use sqd_query_engine.Predicate.Row.{
  ColumnPredicate, RowPredicate, Batch, ColumnStats, is_nil, and_masks, column_masks, evaluate_all,
  evaluate_row, any_can_skip, with_alternatives,
}

pub keeps-and_masks : (a b : Mask) (i : ℕ) → keeps (and_masks a b) i ≡ (keeps a i && keeps b i)
unfolding and_masks
keeps-and_masks (unsupported e) b i = refl
keeps-and_masks (masked a) (unsupported e) i = ground arith
keeps-and_masks (masked a) (masked b) i = kept-and a b i

pub is_masked-and_masks : (a b : Mask) → is_masked (and_masks a b) ≡ (is_masked a && is_masked b)
unfolding and_masks
is_masked-and_masks (unsupported e) b = refl
is_masked-and_masks (masked a) (unsupported e) = refl
is_masked-and_masks (masked a) (masked b) = refl

pub false_of_not : (b : Bool) → not b ≡ true → b ≡ false
false_of_not true h = ground arith
false_of_not false h = refl

pub not_first : (a b : Bool) → (a ≡ true → false ≡ true) → (a || b) ≡ true → b ≡ true
not_first true b h e = absurd (ground (arith, h refl))
not_first false b h e = e

module _ (lib : Libraries) (batch : Batch) (i : ℕ) where
  -- Whether a column filter keeps the row; one on a column that the batch lacks keeps every row.
  abbrev pub column_keeps : ColumnPredicate → Bool
  column_keeps c = elim (batch.column_by_name c.column) [
    | none ↦ true
    | some array ↦ keeps (evaluate lib c.predicate array) i
  ]

  -- All the column filters keep it, and all those of one of the groups, if there are any.
  abbrev pub row_holds : RowPredicate → Bool
  row_holds p =
      all column_keeps p.columns && (is_nil p.alternatives || any (all column_keeps) p.alternatives)

  all-column_masks :
      (columns : List ColumnPredicate)
      → all (λ x. keeps x i) (column_masks lib columns batch) ≡ all column_keeps columns
  unfolding column_masks
  all-column_masks [] = refl
  all-column_masks (c ∷ columns) = step (all-column_masks columns) (batch.column_by_name c.column)
    where
      step :
          all (λ x. keeps x i) (column_masks lib columns batch) ≡ all column_keeps columns
          → (o : Option Array)
          → all
              (λ x. keeps x i)
              (elim o [
                | none ↦ column_masks lib columns batch
                | some array ↦ evaluate lib c.predicate array ∷ column_masks lib columns batch
              ])
            ≡ (elim o [ none ↦ true | some array ↦ keeps (evaluate lib c.predicate array) i ]
                && all column_keeps columns)
      step rest none = rest
      step rest (some array) = ap (λ t. keeps (evaluate lib c.predicate array) i && t) rest

  keeps-evaluate_all :
      (columns : List ColumnPredicate)
      → i < batch.num_rows
      → keeps (evaluate_all lib columns batch) i ≡ all column_keeps columns
  unfolding evaluate_all
  keeps-evaluate_all columns h =
      keeps-and_all batch.num_rows i (column_masks lib columns batch) h ∙ all-column_masks columns

  any-alternatives :
      (groups : List (List ColumnPredicate))
      → i < batch.num_rows
      → any (λ x. keeps x i) (map (λ group. evaluate_all lib group batch) groups)
        ≡ any (all column_keeps) groups
  any-alternatives groups h =
      any-map _ _ (all column_keeps) groups (λ group. keeps-evaluate_all group h)

  -- With groups, the row is kept where the columns and a group keep it.
  keeps-groups :
      (a b : Mask) (groups : List (List ColumnPredicate)) (m : BooleanArray)
      → and_masks a b ≡ masked m
      → ((mb : BooleanArray) → b ≡ masked mb → kept mb i ≡ any (all column_keeps) groups)
      → kept m i ≡ (keeps a i && any (all column_keeps) groups)
  unfolding and_masks
  keeps-groups (unsupported e) b groups m h k = absurd (ground arith)
  keeps-groups (masked a) (unsupported e) groups m h k = absurd (ground arith)
  keeps-groups (masked a) (masked b) groups m h k =
      sym (ap (λ x. keeps x i) h) ∙ kept-and a b i ∙ ap (λ t. kept a i && t) (k b refl)

  pub row_holds-alternatives :
      (columns : List ColumnPredicate) (groups : List (List ColumnPredicate)) (m : BooleanArray)
      → i < batch.num_rows
      → evaluate_row lib (with_alternatives columns groups) batch ≡ masked m
      → kept m i ≡ (all column_keeps columns && (is_nil groups || any (all column_keeps) groups))
  unfolding evaluate_row with_alternatives
  row_holds-alternatives columns [] m h e =
      sym (ap (λ x. keeps x i) e) ∙ keeps-evaluate_all columns h ∙ ground arith
  row_holds-alternatives columns (g ∷ groups) m h e =
      keeps-groups _ _ (g ∷ groups) m e (λ mb eb.
        kept-or_all batch.num_rows i (map (λ group. evaluate_all lib group batch) (g ∷ groups)) mb
          eb
        ∙ any-alternatives (g ∷ groups) h)
      ∙ ap (λ t. t && any (all column_keeps) (g ∷ groups)) (keeps-evaluate_all columns h)

  -- The statistics hold for the row: a column that has any is in the batch, and the row's value,
  -- where it has one, lies inside them.
  abbrev pub Described : ColumnStats → Type 0
  Described stats_fn =
      (name : String) (stats : StatRange)
      → stats_fn name ≡ some stats
      → (a : Array) × (batch.column_by_name name ≡ some a) × Within stats a i

  skipped-column :
      (c : ColumnPredicate) (stats_fn : ColumnStats)
      → Described stats_fn
      → (elim (stats_fn c.column) [ none ↦ false | some stats ↦ can_skip c.predicate stats ]) ≡ true
      → column_keeps c ≡ false
  skipped-column c stats_fn described skip = elim (Option-cases (stats_fn c.column)) [
    | inl e ↦ absurd (ground (arith, skip, e))
    | inr (stats, e) ↦
        let (a, ea, inside) = described c.column stats e in
        ap (λ o. elim o [ none ↦ true | some array ↦ keeps (evaluate lib c.predicate array) i ]) ea
        ∙ can_skip-evaluate lib c.predicate stats a i
            (sym (ap (λ o. elim o [ none ↦ false | some stats ↦ can_skip c.predicate stats ]) e)
              ∙ skip)
            inside
  ]

  pub any_can_skip-columns :
      (columns : List ColumnPredicate) (stats_fn : ColumnStats)
      → Described stats_fn
      → any_can_skip columns stats_fn ≡ true
      → all column_keeps columns ≡ false
  unfolding any_can_skip
  any_can_skip-columns [] stats_fn described skip = absurd (ground arith)
  any_can_skip-columns (c ∷ columns) stats_fn described skip = elim (Bool-cases (column_keeps c)) [
    | inl kept_here ↦ rw kept_here (
        any_can_skip-columns columns stats_fn described (
          not_first _ _ (λ first. sym (sym kept_here ∙ skipped-column c stats_fn described first))
            skip))
    | inr e ↦ rw e refl
  ]

  pub skipped_groups :
      (groups : List (List ColumnPredicate)) (stats_fn : ColumnStats)
      → Described stats_fn
      → all (λ group. any_can_skip group stats_fn) groups ≡ true
      → any (all column_keeps) groups ≡ false
  skipped_groups [] stats_fn described skip = refl
  skipped_groups (g ∷ groups) stats_fn described skip =
      let both =
        (&&_iff (any_can_skip g stats_fn) (all (λ group. any_can_skip group stats_fn) groups)).0
          skip in
      rw
        (
          any_can_skip-columns g stats_fn described both.0,
          skipped_groups groups stats_fn described both.1,
        )
        refl

  abbrev alternatives_mask : RowPredicate → Mask
  alternatives_mask p =
      or_all batch.num_rows (map (λ group. evaluate_all lib group batch) p.alternatives)

  pub skipped_row :
      (p : RowPredicate)
      → i < batch.num_rows
      → ((all column_keeps p.columns ≡ false)
          ⊎ ((is_nil p.alternatives ≡ false) × (any (all column_keeps) p.alternatives ≡ false)))
      → keeps (evaluate_row lib p batch) i ≡ false
  unfolding evaluate_row
  skipped_row p h (inl e) = elim (Bool-cases (is_nil p.alternatives)) [
    | inl none_given ↦ rw (evaluate_row, none_given) (keeps-evaluate_all p.columns h ∙ e)
    | inr some_given ↦
        rw (evaluate_row, some_given)
          (keeps-and_masks (evaluate_all lib p.columns batch) (alternatives_mask p) i
            ∙ ap (λ t. t && keeps (alternatives_mask p) i) (keeps-evaluate_all p.columns h ∙ e))
  ]
  skipped_row p h (inr (some_given, e)) =
      rw (evaluate_row, some_given)
        (keeps-and_masks (evaluate_all lib p.columns batch) (alternatives_mask p) i
          ∙ ap (λ t. keeps (evaluate_all lib p.columns batch) i && t)
              (keeps-or_all batch.num_rows i
                (map (λ group. evaluate_all lib group batch) p.alternatives)
                (any-alternatives p.alternatives h ∙ e))
          ∙ ground arith)
