-- ===== src/Predicate/Listed.antt =====
-- src/scan/predicate.rs: the values that a filter lists, as the union of lists reads them.
use Prim.Native.String.{String, compare}
use Prim.Native.Nat.{Ordering}
use text.Mathlib.TextEquality.{path_by_compare}
use sqd_query_engine.Prelude.{Bool, true, false, ◌||◌, Option, none, some, ◌≡◌, refl, arith}
use sqd_query_engine.Predicate.Value.{FilterList}
use sqd_query_engine.Predicate.Column.{
  ArrayPredicate, on_value, in_list, equal, bloom_filter, in_set, range_gte, range_lte,
  list_contains_any, never, any_of,
}
use sqd_query_engine.Predicate.Row.{string_eq}
use sqd_query_engine.Predicate.Union.{listed_values}

-- What a chain of options that gives a value has passed.
pub bind-some {ℓ κ} :
    {A : Type ℓ} {B : Type κ} (o : Option A) (next : A → Option B) {b : B}
    → (elim o [ none ↦ none | some a ↦ next a ]) ≡ some b
    → (a : A) × (o ≡ some a) × (next a ≡ some b)
bind-some none next e = absurd (ground arith)
bind-some (some a) next e = (a, refl, e)

pub string_eq→eq : (a b : String) → string_eq a b ≡ true → a ≡ b
string_eq→eq a b h = path_by_compare a b (is_eq (compare a b) h)
  where
    is_eq : (o : Ordering) → (elim o [ Ordering.eq ↦ true | _ ↦ false ]) ≡ true → o ≡ Ordering.eq
    is_eq Ordering.lt h = absurd (ground arith)
    is_eq Ordering.eq h = refl
    is_eq Ordering.gt h = absurd (ground arith)

pub listed_values-in_list :
    (p : ArrayPredicate) (values : FilterList)
    → listed_values p ≡ some values
    → p ≡ on_value (in_list values)
unfolding listed_values
listed_values-in_list (on_value (in_list vs)) values e = cc e
listed_values-in_list (on_value (equal _)) values e = absurd (ground arith)
listed_values-in_list (on_value (bloom_filter _)) values e = absurd (ground arith)
listed_values-in_list (on_value (in_set _)) values e = absurd (ground arith)
listed_values-in_list (on_value (range_gte _)) values e = absurd (ground arith)
listed_values-in_list (on_value (range_lte _)) values e = absurd (ground arith)
listed_values-in_list (list_contains_any _) values e = absurd (ground arith)
listed_values-in_list never values e = absurd (ground arith)
listed_values-in_list (any_of _) values e = absurd (ground arith)

or_true_right : (a b : Bool) → b ≡ true → (a || b) ≡ true
or_true_right true b h = refl
or_true_right false b h = h

pub either :
    (a b x y : Bool)
    → (a ≡ true → x ≡ true)
    → (b ≡ true → y ≡ true)
    → (a || b) ≡ true
    → (x || y) ≡ true
either true b x y hx hy e = rw (hx refl) refl
either false b x y hx hy e = or_true_right x y (hy e)
