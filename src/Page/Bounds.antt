-- ===== src/Page/Bounds.antt =====
-- The bounds of a range, and how many headers the budget is taken to hold.
use sqd_query_engine.Prelude.{
  ℕ, ◌+◌, ◌-◌, ◌*◌, ◌≤◌, ◌<◌, min, max, Bool, true, false, Option, none, some, List, ltb, ◌==◌,
  if◌then◌else◌, length, ◌≡◌, arith, refl, ◌⊎◌, inl, inr, Bool-cases, subst,
}
use native.Mathlib.Nat.{div-mul-le_self, lt-div-mul-add}
use sqd_query_engine.Prelude.Words.{u64_max, div_ceil}
use sqd_query_engine.Error.{Result, ok, err, ◌>>=◌}
use sqd_query_engine.Selection.{BlockSelection}
use sqd_query_engine.Page.{
  Execution, partition_point, headers_budget_holds, selection_span, cut_to_span, drop_covering,
  bound_range, span_end, range_end,
}

abbrev pub IsBefore : ℕ → Option ℕ → Type 0
IsBefore end none = Unit
IsBefore end (some last) = end < last

-- The three ways in which a range ends: where the plan does, at the end of the request, or at a
-- block at or after its first and before the end of the request.
abbrev pub RangeEnds : Execution → ℕ → Option ℕ → Option ℕ × Bool → Type 0
RangeEnds execution from_block request_end range =
    (range ≡ (execution.to_block, true))
    ⊎ ((last : ℕ) × (request_end ≡ some last) × (range ≡ (some last, true)))
    ⊎ ((end : ℕ) × (range ≡ (some end, false)) × (from_block ≤ end) × IsBefore end request_end)

bound_range-RangeEnds :
    (execution : Execution) (from_block : ℕ) (hint request_end : Option ℕ)
    → RangeEnds execution from_block request_end
        (bound_range (drop_covering hint request_end) request_end from_block execution.to_block)
unfolding bound_range drop_covering
bound_range-RangeEnds execution from_block none request_end = inl refl
bound_range-RangeEnds execution from_block (some hint) none =
    inr (inr (max hint from_block, refl, omega arith, tt))
bound_range-RangeEnds execution from_block (some hint) (some last) =
    elim (Bool-cases (ltb hint last)) [
      | inr covering ↦ inl (rw covering)
      | inl shorter ↦ elim (Bool-cases (min (max hint from_block) last == last)) [
        | inl at_end ↦ inr (inl (last, refl, rw (shorter, at_end) (ground arith)))
        | inr before ↦
            inr (
              inr
                (min (max hint from_block) last, rw (shorter, before), ground arith, ground arith))
      ]
    ]

ok-injective {ℓ} : {A : Type ℓ} {a b : A} → ok a ≡ ok b → a ≡ b
ok-injective h = cc h

hint-RangeEnds :
    (execution : Execution) (from_block : ℕ) (request_end : Option ℕ) (cut : Option ℕ → Option ℕ)
    (hint : Result (Option ℕ)) (range : Option ℕ × Bool)
    → (hint >>= λ h.
        ok (
          bound_range
            (drop_covering (cut h) request_end)
            request_end
            from_block
            execution.to_block))
      ≡ ok range
    → RangeEnds execution from_block request_end range
hint-RangeEnds execution from_block request_end cut (ok h) range e =
    subst (λ r. RangeEnds execution from_block request_end r) (ok-injective e)
      (bound_range-RangeEnds execution from_block (cut h) request_end)
hint-RangeEnds execution from_block request_end cut (err why) range e = absurd (ground arith)

-- Whatever the hints and the span, every range that is read ends in one of these ways: so the
-- ranges advance, and one that is not the last leaves blocks of the request to read.
pub range_end-RangeEnds :
    (execution : Execution) (selection : BlockSelection) (from_block : ℕ) (first_range : Bool)
    (header_numbers : List ℕ) (request_end : Option ℕ) (range : Option ℕ × Bool)
    → range_end execution selection from_block first_range header_numbers request_end ≡ ok range
    → RangeEnds execution from_block request_end range
unfolding range_end
range_end-RangeEnds execution selection from_block first_range header_numbers request_end range =
    hint-RangeEnds execution from_block request_end
      (λ h. cut_to_span h (
        span_end
          (selection_span execution selection (partition_point from_block header_numbers)
            (length header_numbers - partition_point from_block header_numbers))
          header_numbers (partition_point from_block header_numbers)))
      (if execution.range_reads
        then (if first_range
            then execution.initial_range_end
            else ok (execution.next_range_end from_block))
        else ok none)
      range

div_ceil_bounds : (n w : ℕ) → 0 < w → (n ≤ div_ceil n w * w) × (div_ceil n w * w < n + w)
div_ceil_bounds n w h =
    omega (arith, div-mul-le_self (n + (w - 1)) w, lt-div-mul-add {a = n + (w - 1)} {b = w} h)

-- Where what was read has a positive weight and the count is below the largest word: at the weight
-- per header read so far, the headers counted weigh at least what is left of the budget, and one
-- fewer weigh less.
pub headers_budget_holds_bounds :
    (budget weight headers_read : ℕ)
    → 0 < weight
    → headers_budget_holds budget weight headers_read < u64_max
    → let holds = headers_budget_holds budget weight headers_read in
      ((budget - weight) * headers_read ≤ holds * weight)
      × (holds * weight < (budget - weight) * headers_read + weight)
unfolding headers_budget_holds
headers_budget_holds_bounds budget weight headers_read h fits =
    rw exact (div_ceil_bounds ((budget - weight) * headers_read) weight h)
  where
    exact :
        headers_budget_holds budget weight headers_read
        ≡ div_ceil ((budget - weight) * headers_read) weight
    exact = ground arith
