-- ===== src/Memory/Pointer.antt =====
-- The pointers that `machine_transfer` forms and its accesses through them. An access that
-- leaves the array it points into is undefined.
use emculator.Prelude.{ℕ, ◌+◌, ◌*◌, ◌/◌, ◌%◌, ◌^◌, leb, if◌then◌else◌}
use emculator.Machine.{Width, width_8, width_16, width_32, Op, ok, ub, update}
use emculator.Memory.Bytes.{read_le, write_le}

-- `flash` and `ram` are offsets into the two memories, `ip` is an index into `nvic.ip`.
pub data Ptr : Type 0 where
  null cpacr : Ptr
  flash ram ip pselreset : ℕ → Ptr

abbrev pub bytes : Width → ℕ
bytes width_8 = 1
bytes width_16 = 2
bytes width_32 = 4

-- The first `n` bytes of the word `old` replaced by those of `x`.
abbrev pub splice : ℕ → ℕ → ℕ → ℕ
splice n old x = old / 256 ^ n * 256 ^ n + x % 256 ^ n

-- `*(uintN_t *)ptr`.
unfoldable pub read_ptr : Ptr → ℕ → Op ℕ
read_ptr null n m = ub
read_ptr (flash o) n m = if leb (o + n) m.image_size then ok (read_le m.image o n) m else ub
read_ptr (ram o) n m = if leb (o + n) m.mem_size then ok (read_le m.mem o n) m else ub
read_ptr (ip i) n m = if leb (i + n) 32 then ok (read_le m.nvic_ip i n) m else ub
read_ptr cpacr n m = ok (m.cpacr % 256 ^ n) m
read_ptr (pselreset i) n m = ok (m.pselreset i % 256 ^ n) m

-- `*(uintN_t *)ptr = x`.
unfoldable pub write_ptr : Ptr → ℕ → ℕ → Op (Unit {0})
write_ptr null n x m = ub
write_ptr (flash o) n x m =
    if leb (o + n) m.image_size then ok tt (record m { image = write_le m.image o n x }) else ub
write_ptr (ram o) n x m =
    if leb (o + n) m.mem_size then ok tt (record m { mem = write_le m.mem o n x }) else ub
write_ptr (ip i) n x m =
    if leb (i + n) 32 then ok tt (record m { nvic_ip = write_le m.nvic_ip i n x }) else ub
write_ptr cpacr n x m = ok tt (record m { cpacr = splice n m.cpacr x })
write_ptr (pselreset i) n x m =
    ok tt (record m { pselreset = update m.pselreset i (splice n (m.pselreset i) x) })
