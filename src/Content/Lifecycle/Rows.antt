-- ===== src/Content/Lifecycle/Rows.antt =====
-- The table of rows under a write, and the rows that a lifecycle can leave.
use taha_mohammadi_platform.Prelude.{
  ℕ, Option, none, some, List, [], ◌∷◌, ◌≡◌, inl, inr, arith, eqb, if◌then◌else◌, Bool-cases,
}
use taha_mohammadi_platform.Prelude.Lists.{All}
use taha_mohammadi_platform.Content.Lifecycle.{scheduled, published, Row, find_row, put_row}

pub find_row-put_row :
    (new : Row) (rows : List Row) (i : ℕ)
    → find_row i (put_row new rows) ≡ (
        if eqb new.pk i
        then elim (find_row i rows) [ none ↦ none | some _ ↦ some new ]
        else find_row i rows)
unfolding find_row put_row
find_row-put_row new [] i = ground arith
find_row-put_row new (row ∷ rest) i = ground (arith, find_row-put_row new rest i)

pub find_row_pk : (i : ℕ) (rows : List Row) (row : Row) → find_row i rows ≡ some row → row.pk ≡ i
unfolding find_row
find_row_pk i [] row h = cc
find_row_pk i (r ∷ rest) row h = ground (arith, find_row_pk i rest row)

abbrev pub IsSome : Option ℕ → Type 0
IsSome none = ⊥
IsSome (some t) = Unit

-- A scheduled row has its time, no other row has one, and a published row has its publication time.
abbrev pub IsRowValid : Row → Type 0
IsRowValid row = elim row.status [
  | scheduled ↦ IsSome row.scheduled_for
  | published ↦ (row.scheduled_for ≡ none) × IsSome row.published_at
  | _ ↦ row.scheduled_for ≡ none
]

pub All-put_row :
    (P : Row → Type 0) (new : Row) (rows : List Row) → P new → All P rows → All P (put_row new rows)
unfolding put_row
All-put_row P new [] p h = tt
All-put_row P new (row ∷ rest) p h = elim (Bool-cases (eqb row.pk new.pk)) [
  | inl same ↦ rw same (p, h.1)
  | inr other ↦ rw other (h.0, All-put_row P new rest p h.1)
]
