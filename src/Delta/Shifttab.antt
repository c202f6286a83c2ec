-- ===== src/Delta/Shifttab.antt =====
-- delta/shifttab.go: Map and the coding of a shift table. Offsets are uint64s, deltas int64s as bit patterns.
pub mod RoundTrip
pub mod Mapping
use go_binsync.Prelude.{
  ◌||◌, ◌==◌, ◌-◌, Bool, get_or, suc, ℕ, zero, suc, ◌+◌, ◌-◌, ◌%◌, ◌^◌, ◌&&◌, List, [], ◌∷◌, ◌++◌,
  Option, none, some, Result, ok, err, panic, stuck, length, ltb, if◌then◌else◌,
}
use go_binsync.Int64.{add64}
use go_binsync.Delta.Errors.{Error}
use go_binsync.Delta.Buf
use go_binsync.Delta.Buf.{Rbuf, reading}
use go_binsync.Delta.Buf.Put
use go_binsync.Delta.Buf.Put.{Wbuf}

-- Samples, which is not coded, is left out.
pub record ShiftTable : Type 0 where
  pub offs : List ℕ
  pub deltas : List ℕ

-- a - b of uint64s and of int64s.
abbrev pub sub64 : ℕ → ℕ → ℕ
sub64 a b = (a + 2 ^ 64 - b) % 2 ^ 64

-- `for i := range t.Offs`, behind an offset `po` and a delta `pd`.
unfoldable pub encode_loop : Wbuf → ℕ → ℕ → List ℕ → List ℕ → Result Error Wbuf
unfolding Put.u Put.s
encode_loop w po pd [] deltas = ok w
encode_loop w po pd (o ∷ offs) [] = panic
encode_loop w po pd (o ∷ offs) (d ∷ deltas) =
    encode_loop (Put.s (Put.u w (sub64 o po)) (sub64 d pd)) o d offs deltas

unfoldable pub encode : ShiftTable → Result Error (List ℕ)
unfolding encode_loop
encode t = encode_loop [] 0 0 t.offs t.deltas

abbrev pub table_of : Option Error → ShiftTable → Result Error ShiftTable
table_of none t = ok t
table_of (some e) t = err e

abbrev pub one_more : Option Error → Result Error ShiftTable → Result Error ShiftTable
one_more none m = m
one_more (some e) m = err e

-- `for len(r.b) > 0 && r.err == nil`. Each round reads a byte at least.
unfoldable pub decode_loop : ℕ → Rbuf → ℕ → ℕ → ShiftTable → Result Error ShiftTable
decode_loop zero r po pd t = stuck
decode_loop (suc fuel) r po pd t =
    let (gap, r1) = Buf.u r in
    let (step, r2) = Buf.s r1 in
    let o = add64 po gap in
    let d = add64 pd step in
    let more =
      decode_loop fuel r2 o d
        (record { offs = t.offs ++ (o ∷ []); deltas = t.deltas ++ (d ∷ []) }) in
    if ltb 0 (length r.b) then one_more r.error more else table_of r.error t

unfoldable pub decode_shift_table : List ℕ → Result Error ShiftTable
unfolding decode_loop
decode_shift_table b =
    decode_loop (length b + 1) (reading b) 0 0 (record { offs = []; deltas = [] })

unfoldable pub nth : ℕ → List ℕ → Option ℕ
nth i [] = none
nth zero (x ∷ xs) = some x
nth (suc i) (x ∷ xs) = nth i xs

-- t.Deltas[i] out of range panics.
abbrev pub shifted : ℕ → Option ℕ → Result Error ℕ
shifted off none = panic
shifted off (some d) = ok (add64 off d)

-- shiftTable.Map; a nil table is none, and `search` is sort.Search.
unfoldable pub map_off : (ℕ → (ℕ → Bool) → ℕ) → Option ShiftTable → ℕ → Result Error ℕ
unfolding nth
map_off search none off = ok off
map_off search (some t) off =
    let i = search (length t.offs) (λ i. ltb off (get_or t.offs i 0)) in
    if length t.offs == 0 || i == 0 then ok off else shifted off (nth (i - 1) t.deltas)
