-- ===== src/Delta/Buf/Put.antt =====
-- The writing half of delta/buf.go. A `wbuf` is the list of its bytes.
use go_binsync.Prelude.{ℕ, List, ◌++◌, length}
use go_binsync.Varint.{put_uvarint, put_varint}

abbrev pub Wbuf : Type 0
Wbuf = List ℕ

unfoldable pub u : Wbuf → ℕ → Wbuf
u w v = w ++ put_uvarint v

unfoldable pub s : Wbuf → ℕ → Wbuf
s w v = w ++ put_varint v

unfoldable pub raw : Wbuf → List ℕ → Wbuf
raw w b = w ++ b

unfoldable pub bytes : Wbuf → List ℕ → Wbuf
unfolding u
bytes w b = u w (length b) ++ b
