-- ===== src/RowOrder/Tests.antt =====
-- src/output/row_order.rs at concrete rows.
use sqd_query_engine.Prelude.{
  some-inj, ℕ, Bool, true, false, none, some, [], ◌∷◌, get_or, ◌<◌, ◌≡◌, refl, subst, arith,
}
use sqd_query_engine.Prelude.Int.{pos, negsuc}
use sqd_query_engine.Prelude.Words.{Fits}
use sqd_query_engine.Arrow.{element_type, Column, RecordBatch, column_by_name, int16}
use sqd_query_engine.Integers.{width_of, is_integer}
use sqd_query_engine.Weight.{TableDescription, push_unique}
use sqd_query_engine.Predicate.Order.{sort, insert_sorted}
use sqd_query_engine.RowOrder.Pairs.{IsStoredAt}
use sqd_query_engine.RowOrder.Sorted.{sort_order-compare_orders}
use sqd_query_engine.RowOrder.Prepared.{IsRow}
use sqd_query_engine.RowOrder.{
  row_order, sort_order, compare_orders, sort_by, resolve_sort_columns, resolve_batch,
  resolve_sort_column, row_key, build_full_sort_columns, compare_at, compare_resolved, cmp_rows,
}

-- Rows of the transactions 2, -1 and 2.
abbrev transactions : Column
transactions = record {
  data_type = int16;
  len = 3;
  is_null = λ row. false;
  int_value = λ row. get_or (pos 2 ∷ negsuc 0 ∷ pos 2 ∷ []) row (pos 0);
  text_value = λ row. [];
  bool_value = λ row. false;
  bytes_value = λ row. [];
  list_value = λ row. [];
}

abbrev batch : RecordBatch
batch = record { num_rows = 3; index_of = λ name. some 0; column = λ i. transactions }

abbrev table : TableDescription
table = record {
  declared_weight_key = none;
  block_number_column = "block_number";
  item_order_keys = "transaction_index" ∷ [];
  address_column = none;
  variant_column = none;
  columns = λ name. none;
}

transactions-IsRow :
    (row : ℕ) → row < 3 → Fits 16 true (transactions.int_value row) → IsRow (batch ∷ []) (0, row)
unfolding column_by_name width_of element_type
transactions-IsRow row inside fits = (
  batch,
  refl,
  λ name c e.
      subst (λ d. IsStoredAt d row) (some-inj e)
        (record {
          in_range = inside;
          int_fits = λ bits s w.
              let pair : ◌≡◌ {A = ℕ × Bool} (16, true) (bits, s) = some-inj w in
              subst (λ (p : ℕ × Bool). Fits (p.0) (p.1) (transactions.int_value row)) pair fits;
          list_fits = λ t bits s et w. absurd (cc);
        }),
)

sort_order-compare_orders_example :
    sort_order (row_order (batch ∷ []) table) ((0, 0) ∷ (0, 1) ∷ (0, 2) ∷ [])
    ≡ (0, 1) ∷ (0, 0) ∷ (0, 2) ∷ []
unfolding compare_orders sort_by sort insert_sorted row_order build_full_sort_columns row_key
    push_unique resolve_sort_columns resolve_batch resolve_sort_column column_by_name is_integer
    width_of compare_at compare_resolved cmp_rows
sort_order-compare_orders_example =
    sort_order-compare_orders (batch ∷ []) table ((0, 0) ∷ (0, 1) ∷ (0, 2) ∷ []) (
      transactions-IsRow 0 (omega arith) (omega arith),
      (
        transactions-IsRow 1 (omega arith) (omega arith),
        (transactions-IsRow 2 (omega arith) (omega arith), tt),
      ),
    )
