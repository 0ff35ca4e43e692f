-- ===== src/Policy/Discovery.antt =====
-- policy.rs: the statements that `TailCursor` finds, and `prepare_exact`.
use sqlite_mcp.Prelude.Int.{ℤ}
use sqlite_mcp.Policy.Tail.{
  TailCursor, next_offset, next_range, end_of, Prepare, Discovery, refused, prepared,
  next_statement,
}
use sqlite_mcp.Prelude.{
  ℕ, zero, suc, ◌+◌, ◌-◌, ◌≤◌, ◌<◌, ◌≡◌, refl, ◌⊎◌, inl, inr, Bool, Option, some, arith, leb,
  Bool-cases, Result-cases, ok,
}

-- The range of a statement and the cursor behind it: the range starts where the cursor stands or
-- later, has a character, and ends inside the text, where the cursor stands then.
pub record IsStep (c : TailCursor) (range : ℕ × ℕ) (c' : TailCursor) : Type 0 where
  pub starts : c.offset ≤ range.0
  pub advances : range.0 < range.1
  pub stops : range.1 ≤ end_of c
  pub moved : c' ≡ (record { source = c.source; offset = range.1 })

next_offset_lem :
    (offset stop next : ℕ) (tail : Option ℤ)
    → next_offset offset stop tail ≡ ok next
    → (offset < next) × (next ≤ stop)
unfolding next_offset
next_offset_lem offset stop next tail h = ground (arith, h)

Discovery-cases :
    (d : Discovery)
    → (d ≡ refused) ⊎ ((found : Bool) × (tail : Option ℤ) × (d ≡ prepared found tail))
Discovery-cases refused = inl refl
Discovery-cases (prepared found tail) = inr (found, tail, refl)

pub next_range-IsStep :
    (fuel : ℕ) (p : Prepare) (c c' : TailCursor) (range : ℕ × ℕ)
    → next_range fuel p c ≡ (ok (some range), c')
    → IsStep c range c'
unfolding next_range
next_range-IsStep zero p c c' range h = ground (arith, h)
next_range-IsStep (suc fuel) p c c' range h = elim (Bool-cases (leb (end_of c) c.offset)) [
  | inl at_end ↦ ground (arith, h, at_end)
  | inr before_end ↦ elim (Discovery-cases (p c.source c.offset)) [
    | inl q ↦ ground (arith, h, before_end, q)
    | inr (found, tail, q) ↦ elim (Result-cases (next_offset c.offset (end_of c) tail)) [
      | inr (x, r) ↦ ground (arith, h, before_end, q, r)
      | inl (next, r) ↦
          let (past, inside) = next_offset_lem c.offset (end_of c) next tail r in
          elim (Bool-cases found) [
            | inl t ↦
                let same_range : (range ≡ (c.offset, next))
                    × (c' ≡ (record { source = c.source; offset = next })) =
                  ground (arith, h, before_end, q, r, t) in
                record {
                  starts = ground (arith, same_range);
                  advances = ground (arith, same_range, past);
                  stops = ground (arith, same_range, inside);
                  moved = ground (arith, same_range);
                }
            | inr t ↦
                let c1 : TailCursor = record { source = c.source; offset = next } in
                let later : IsStep c1 range c' =
                  next_range-IsStep fuel p c1 c' range (ground (arith, h, before_end, q, r, t)) in
                record {
                  starts = omega (arith, later.starts, past);
                  advances = later.advances;
                  stops = later.stops;
                  moved = later.moved;
                }
          ]
    ]
  ]
]

-- With one step for each character that is left, the fuel does not matter.
next_range_fuel :
    (n m : ℕ) (p : Prepare) (c : TailCursor)
    → end_of c < c.offset + n
    → end_of c < c.offset + m
    → next_range n p c ≡ next_range m p c
unfolding next_range
next_range_fuel zero zero p c h k = refl
next_range_fuel zero (suc m) p c h k = ground (arith, h)
next_range_fuel (suc n) zero p c h k = ground (arith, k)
next_range_fuel (suc n) (suc m) p c h k = elim (Discovery-cases (p c.source c.offset)) [
  | inl q ↦ ground (arith, q)
  | inr (found, tail, q) ↦ elim (Result-cases (next_offset c.offset (end_of c) tail)) [
    | inr (x, r) ↦ ground (arith, q, r)
    | inl (next, r) ↦
        let (past, inside) = next_offset_lem c.offset (end_of c) next tail r in
        ground (
          arith,
          q,
          r,
          next_range_fuel n m p (record { source = c.source; offset = next })
              (omega (arith, h, past)) (omega (arith, k, past)),
        )
  ]
]

-- The cursor with enough fuel for what is left of its text.
pub next_statement_fuel :
    (n : ℕ) (p : Prepare) (c : TailCursor)
    → end_of c < c.offset + n
    → next_range n p c ≡ next_statement p c
next_statement_fuel n p c h = next_range_fuel n (suc (end_of c - c.offset)) p c h (omega arith)
