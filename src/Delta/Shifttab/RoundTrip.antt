-- ===== src/Delta/Shifttab/RoundTrip.antt =====
-- decodeShiftTable of what encode writes.
use go_binsync.Prelude.{
  ℕ, zero, suc, ◌+◌, ◌<◌, ◌≡◌, refl, sym, ap, ◌∙◌, true, ltb, List, [], ◌∷◌, ◌++◌, All, ok, ◌>>=◌,
  length, length-append, append_assoc, append-nil, arith,
}
use go_binsync.Int64.{add64}
use go_binsync.Varint.{IsU64, put_uvarint, put_varint}
use go_binsync.Delta.Buf.{reading}
use go_binsync.Delta.Buf.Put
use go_binsync.Delta.Buf.Laws.{u-put, s-put}
use go_binsync.Delta.Correct.RoundTrip.Bounds.{put_uvarint-nonempty}
use go_binsync.Delta.Shifttab.{
  ShiftTable, sub64, encode_loop, encode, decode_loop, decode_shift_table,
}

-- The bytes that encode writes behind `po` and `pd`.
entries : ℕ → ℕ → List ℕ → List ℕ → List ℕ
entries po pd [] deltas = []
entries po pd (o ∷ offs) [] = []
entries po pd (o ∷ offs) (d ∷ deltas) =
    put_uvarint (sub64 o po) ++ (put_varint (sub64 d pd) ++ entries o d offs deltas)

encode_loop-entries :
    (w : List ℕ) (po pd : ℕ) (offs deltas : List ℕ)
    → length offs ≡ length deltas
    → encode_loop w po pd offs deltas ≡ ok (w ++ entries po pd offs deltas)
unfolding encode_loop entries Put.u Put.s
encode_loop-entries w po pd [] deltas h = ap ok (sym (append-nil w))
encode_loop-entries w po pd (o ∷ offs) [] h = absurd (omega arith)
encode_loop-entries w po pd (o ∷ offs) (d ∷ deltas) h =
    encode_loop-entries ((w ++ put_uvarint (sub64 o po)) ++ put_varint (sub64 d pd)) o d offs deltas
      (omega arith)
    ∙ ap ok (simp append_assoc)

back : (a b : ℕ) → IsU64 a → IsU64 b → add64 b (sub64 a b) ≡ a
unfolding add64
back a b h k = omega arith

decode_loop-entries :
    (fuel po pd : ℕ) (offs deltas : List ℕ) (t : ShiftTable)
    → length (entries po pd offs deltas) < fuel
    → length offs ≡ length deltas
    → IsU64 po
    → IsU64 pd
    → All IsU64 offs
    → All IsU64 deltas
    → decode_loop fuel (reading (entries po pd offs deltas)) po pd t
      ≡ ok (record { offs = t.offs ++ offs; deltas = t.deltas ++ deltas })
unfolding decode_loop entries
decode_loop-entries zero po pd offs deltas t h same u v us vs = absurd (omega arith)
decode_loop-entries (suc fuel) po pd [] [] t h same u v us vs =
    rw (append-nil t.offs, append-nil t.deltas) refl
decode_loop-entries (suc fuel) po pd [] (d ∷ deltas) t h same u v us vs = absurd (omega arith)
decode_loop-entries (suc fuel) po pd (o ∷ offs) [] t h same u v us vs = absurd (omega arith)
decode_loop-entries (suc fuel) po pd (o ∷ offs) (d ∷ deltas) t h same u v (uo, us) (vd, vs) =
    let rest = entries o d offs deltas in
    let r1 = put_varint (sub64 d pd) ++ rest in
    let size = length-append (put_uvarint (sub64 o po)) r1 in
    let some_left = put_uvarint-nonempty (sub64 o po) in
    let left : ltb 0 (length (put_uvarint (sub64 o po) ++ r1)) ≡ true =
      ground (arith, size, some_left) in
    rw (u-put (sub64 o po) r1 (omega arith)) (
      rw (s-put (sub64 d pd) rest (omega arith)) (
        rw (left, back o po uo u, back d pd vd v)
          (decode_loop-entries fuel o d offs deltas
              (record { offs = t.offs ++ (o ∷ []); deltas = t.deltas ++ (d ∷ []) })
              (omega (arith, size, some_left, length-append (put_varint (sub64 d pd)) rest))
              (omega arith) uo vd us vs
            ∙ rw (append_assoc t.offs (o ∷ []) offs, append_assoc t.deltas (d ∷ []) deltas) refl)))

-- decodeShiftTable of what encode writes gives any table back, of as many offsets as deltas.
pub decode_shift_table-encode :
    (t : ShiftTable)
    → length t.offs ≡ length t.deltas
    → All IsU64 t.offs
    → All IsU64 t.deltas
    → (encode t >>= decode_shift_table) ≡ ok t
unfolding encode decode_shift_table
decode_shift_table-encode t same us vs = rw (encode_loop-entries [] 0 0 t.offs t.deltas same) (
    decode_loop-entries (length (entries 0 0 t.offs t.deltas) + 1) 0 0 t.offs t.deltas
      (record { offs = []; deltas = [] }) (omega arith) same (omega arith) (omega arith) us vs)
