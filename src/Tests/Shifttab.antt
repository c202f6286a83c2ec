-- ===== src/Tests/Shifttab.antt =====
-- A shift table of two entries.
use go_binsync.Prelude.{
  ℕ, zero, suc, ◌+◌, ◌≤◌, ◌<◌, Bool, Bool-cases, true, false, inl, inr, none, some, get_or,
  if◌then◌else◌, ◌-◌, ◌^◌, ◌≡◌, refl, [], ◌∷◌, ok, ◌>>=◌, arith,
}
use native.Mathlib.Decide.{ℕ_discrete}
use go_binsync.Delta.Shifttab.Mapping.{IsSearch, last_delta, moved, map_off-last}
use go_binsync.Delta.Shifttab.{map_off, ShiftTable, encode, decode_shift_table}
use go_binsync.Delta.Shifttab.RoundTrip.{decode_shift_table-encode}

-- The second delta is below 0.
abbrev table : ShiftTable
table = record { offs = 16 ∷ 400 ∷ []; deltas = 8 ∷ (2 ^ 64 - 32) ∷ [] }

decode_shift_table-encode_example : (encode table >>= decode_shift_table) ≡ ok table
decode_shift_table-encode_example = decode_shift_table-encode table refl (omega arith) (omega arith)

-- A search that goes through all of the indexes.
search_from : ℕ → ℕ → (ℕ → Bool) → ℕ
search_from zero i f = i
search_from (suc m) i f = let rest = search_from m (i + 1) f in if f i then i else rest

search : ℕ → (ℕ → Bool) → ℕ
unfolding search_from
search n f = search_from n 0 f

search_from-finds :
    (m i : ℕ) (f : ℕ → Bool)
    → ((j : ℕ) → j < i → f j ≡ false)
    → (search_from m i f ≤ i + m)
      × ((j : ℕ) → j < search_from m i f → f j ≡ false)
      × (search_from m i f < i + m → f (search_from m i f) ≡ true)
unfolding search_from
search_from-finds zero i f below = (omega arith, below, λ h. absurd (omega arith))
search_from-finds (suc m) i f below = elim (Bool-cases (f i)) [
  | inl here ↦ rw here (omega arith, below, λ h. here)
  | inr on ↦
      let (le, before, at) =
        search_from-finds m (i + 1) f
          (λ j h. elim (ℕ_discrete j i) [ yes e ↦ rw e on | no n ↦ below j (omega arith) ]) in
      rw on (omega arith, before, λ h. at (omega arith))
]

search-IsSearch : IsSearch search
unfolding search
search-IsSearch = record {
  finds = λ n f up.
      let total : 0 + n ≡ n = omega arith in
      rw total at (search_from-finds n 0 f (λ j h. absurd (omega arith)));
}

abbrev ascending_table : ShiftTable
ascending_table = record { offs = 16 ∷ 400 ∷ []; deltas = 8 ∷ 64 ∷ [] }

in_order :
    (i j : ℕ)
    → i ≤ j
    → j < 2
    → get_or {A = ℕ} (16 ∷ 400 ∷ []) i 0 ≤ get_or {A = ℕ} (16 ∷ 400 ∷ []) j 0
in_order zero zero h k = omega arith
in_order zero (suc zero) h k = omega arith
in_order zero (suc (suc j)) h k = absurd (omega arith)
in_order (suc i) zero h k = absurd (omega arith)
in_order (suc zero) (suc zero) h k = omega arith
in_order (suc (suc i)) (suc zero) h k = absurd (omega arith)
in_order (suc i) (suc (suc j)) h k = absurd (omega arith)

map_off-last_example :
    map_off search (some ascending_table) 500
    ≡ ok (moved 500 (last_delta (16 ∷ 400 ∷ []) (8 ∷ 64 ∷ []) 500 none))
map_off-last_example = map_off-last search ascending_table 500 search-IsSearch refl in_order
