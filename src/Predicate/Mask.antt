-- ===== src/Predicate/Mask.antt =====
-- The masks of src/scan/predicate.rs: the type `Mask`, the kernels of Arrow that combine masks,
-- and the loops that fold them. A row's answer is null where the column's value is.
use sqd_query_engine.Prelude.{
  ℕ, Bool, true, false, ◌&&◌, Option, none, some, List, [], ◌∷◌, map, if◌then◌else◌, replicate,
  range_from, get_elem?,
}
use sqd_query_engine.Arrow.{DataType, Column}

-- What the filter carries, for the message.
pub data Expected : Type 0 where
  a_boolean a_string an_integer a_list_of_strings a_list_of_integers : Expected
  a_list_of_byte_strings a_filter_list a_bloom_filter a_set a_text_threshold : Expected
  a_range_threshold an_integer_threshold : Expected

pub record UnsupportedType : Type 0 where
  pub expected : Expected
  pub stored : DataType

-- `BooleanArray`: an answer per row, or null.
abbrev pub BooleanArray : Type 0
BooleanArray = List (Option Bool)

-- `Result<BooleanArray, UnsupportedType>`
pub data Mask : Type 0 where
  masked : BooleanArray → Mask
  unsupported : UnsupportedType → Mask

-- The function `all`.
unfoldable pub all_rows : ℕ → Bool → BooleanArray
all_rows len value = replicate len (some value)

-- `ok_or_else(|| unsupported(expected, array))`
unfoldable pub or_unsupported : Option BooleanArray → Expected → DataType → Mask
or_unsupported none expected stored = unsupported (record { expected = expected; stored = stored })
or_unsupported (some mask) expected stored = masked mask

-- Every row's answer by `f`; a null row's is null, as the kernels of Arrow leave it.
unfoldable pub mask_nullable : Column → (ℕ → Bool) → BooleanArray
mask_nullable c f = map (λ i. if c.is_null i then none else some (f i)) (range_from 0 c.len)

-- The same where a null row's answer is false.
unfoldable pub mask_definite : Column → (ℕ → Bool) → BooleanArray
mask_definite c f = map (λ i. if c.is_null i then some false else some (f i)) (range_from 0 c.len)

unfoldable pub constant : Column → Bool → BooleanArray
unfolding mask_nullable
constant c value = mask_nullable c (λ _. value)

-- `arrow::compute::kernels::boolean::and`: null where either side is.
unfoldable pub and_row : Option Bool → Option Bool → Option Bool
and_row (some a) (some b) = some (a && b)
and_row _ _ = none

-- `or_kleene`: true where either side is.
unfoldable pub or_row : Option Bool → Option Bool → Option Bool
or_row (some true) b = some true
or_row (some false) b = b
or_row none (some true) = some true
or_row none _ = none

-- Arrow refuses masks of two lengths, and the arrays of a batch have one.
unfoldable pub and : BooleanArray → BooleanArray → BooleanArray
unfolding and_row
and [] bs = []
and (a ∷ as') [] = []
and (a ∷ as') (b ∷ bs) = and_row a b ∷ and as' bs

unfoldable pub or_kleene : BooleanArray → BooleanArray → BooleanArray
unfolding or_row
or_kleene [] bs = bs
or_kleene (a ∷ as') [] = a ∷ as'
or_kleene (a ∷ as') (b ∷ bs) = or_row a b ∷ or_kleene as' bs

-- The loops over masks, with the mask so far; an error ends them.
unfoldable pub fold_masks :
    (BooleanArray → BooleanArray → BooleanArray)
    → BooleanArray
    → List Mask
    → Option BooleanArray
    → Mask
fold_masks op default [] none = masked default
fold_masks op default [] (some prev) = masked prev
fold_masks op default (unsupported e ∷ rest) prev = unsupported e
fold_masks op default (masked m ∷ rest) none = fold_masks op default rest (some m)
fold_masks op default (masked m ∷ rest) (some prev) = fold_masks op default rest (some (op prev m))

-- `result.unwrap_or_else(|| all(len, true))` after the loop with `and`
unfoldable pub and_all : ℕ → List Mask → Mask
unfolding all_rows fold_masks
and_all len masks = fold_masks and (all_rows len true) masks none

-- `any.unwrap_or_else(|| all(len, false))` after the loop with `or_kleene`
unfoldable pub or_all : ℕ → List Mask → Mask
unfolding all_rows fold_masks
or_all len masks = fold_masks or_kleene (all_rows len false) masks none

-- Whether a mask keeps a row.
abbrev pub answers_true : Option (Option Bool) → Bool
answers_true (some (some true)) = true
answers_true _ = false

abbrev pub kept : BooleanArray → ℕ → Bool
kept m i = answers_true (get_elem? m i)

abbrev pub keeps : Mask → ℕ → Bool
keeps (masked m) i = kept m i
keeps (unsupported _) i = false
