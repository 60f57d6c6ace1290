-- ===== src/DynBuffer.antt =====
-- src/dyn_buffer.c and include/dyn_buffer.h: a byte buffer that grows, with a read cursor.
-- A `size_t` wraps at 2 ^ 64; an `int` argument is a ℤ. A function that can return -1 or meet
-- undefined behaviour returns its value beside the new buffer in `Run`.
pub mod Valid
pub mod Grow
pub mod Append
pub mod Push
pub mod Roomy
pub mod Cursor
pub mod Values
pub mod Release
mod Tests
use cros.Common.{
  Bool, List, Option, [], add_size, false, if◌then◌else◌, int_of_size, leb, ltb, minus_one,
  mul_size, negsuc, none, pos, size_of_int, some, sub_size, suc, true, zero, ℕ, ℤ, ◌%◌, ◌&&◌, ◌/◌,
  ◌==◌, ◌∷◌,
}
use cros.Mem.{
  Block, Cell, Heap, Pointer, Run, dangling, done, fault, live, malloc, no_fuel, null, read,
  read_buf, realloc, write, ◌>>=◌,
}

-- `block` is the field `data`: it is NULL until the first append.
pub record DynBuffer : Type 0 where
  pub size : ℕ
  pub pos_offset : ℕ
  pub max : ℕ
  pub block : Pointer

abbrev pub init_size : ℕ
init_size = 256

abbrev pub grow_rate : ℕ
grow_rate = 2

pub init : DynBuffer
init = record { size = 0; pos_offset = 0; max = 0; block = null }

-- free leaves `block` pointing at the freed block; a freed pointer must not be freed again.
pub release : DynBuffer → Run DynBuffer
release d = elim (d.block) [
  | null ↦ done (record d { size = 0; pos_offset = 0; max = 0 })
  | live blk ↦ done (record { size = 0; pos_offset = 0; max = 0; block = dangling })
  | dangling ↦ fault
]

-- The loop `while (size + n > max)`: `need` is size + n. It yields whether memory sufficed, the
-- new capacity and the block.
pub grow : ℕ → Heap → ℕ → ℕ → Block → Run (Bool × ℕ × Block)
grow zero heap need max blk = no_fuel
grow (suc fuel) heap need max blk = elim (ltb max need) [
  | false ↦ done (true, max, blk)
  | true ↦ realloc heap blk (mul_size grow_rate max) >>= λ r. elim r [
    | none ↦ done (false, max, blk)
    | some blk' ↦ grow fuel heap need (mul_size grow_rate max) blk'
  ]
]

-- The capacity at least doubles from 1, and no block is larger than PTRDIFF_MAX.
abbrev pub grow_fuel : ℕ
grow_fuel = 64

-- The copy behind the content, and the new size as an `int`.
pub append : DynBuffer → Block → List ℕ → ℕ → Run (ℤ × DynBuffer)
append d blk buf n =
    if ltb 0 n
    then (do
      bytes ← read_buf buf n
      blk' ← write blk d.size bytes
      let size' = add_size d.size n
      done (int_of_size size', record d { size = size'; block = live blk' }))
    else done (int_of_size d.size, record d { block = live blk })

-- The part of dynBufferPushBackBuf below the first allocation.
pub push_live : Heap → DynBuffer → Block → List ℕ → ℕ → Run (ℤ × DynBuffer)
push_live heap d blk buf n = grow grow_fuel heap (add_size d.size n) d.max blk >>= λ r.
    if r.0
    then append (record d { max = r.1; block = live r.2 }) r.2 buf n
    else done (minus_one, record d { max = r.1; block = live r.2 })

-- dynBufferPushBackBuf with a buffer that is not NULL, or with NULL and n = 0.
pub push_bytes : Heap → DynBuffer → List ℕ → ℕ → Run (ℤ × DynBuffer)
push_bytes heap d buf n = elim (d.block) [
  | null ↦ elim (malloc heap init_size) [
    | none ↦ done (minus_one, d)
    | some blk ↦ push_live heap (record d { size = 0; max = init_size; block = live blk }) blk buf n
  ]
  | live blk ↦ push_live heap d blk buf n
  | dangling ↦ fault
]

-- dynBufferPushBackBuf; `none` is a NULL `new_buf`.
unfoldable pub push_back_buf : Heap → DynBuffer → Option (List ℕ) → ℕ → Run (ℤ × DynBuffer)
push_back_buf heap d none n = if ltb 0 n then done (minus_one, d) else push_bytes heap d [] n
push_back_buf heap d (some buf) n = push_bytes heap d buf n

-- The content beyond the cursor is dropped first.
pub replace_content : Heap → DynBuffer → Option (List ℕ) → ℕ → Run (ℤ × DynBuffer)
replace_content heap d buf n = push_back_buf heap (record d { size = d.pos_offset }) buf n

-- The object representation of a k-byte value on a little-endian host; signed and floating-point
-- values come as their bit patterns.
unfoldable pub le_bytes : ℕ → ℕ → List ℕ
le_bytes zero v = []
le_bytes (suc k) v = v % 256 ∷ le_bytes k (v / 256)

pub push_back_value : Heap → DynBuffer → ℕ → ℕ → Run (ℤ × DynBuffer)
push_back_value heap d k v = push_back_buf heap d (some (le_bytes k v)) k

-- dynBufferPushBackInt8 and dynBufferPushBackUInt8, and so on by width.
pub push_back_int8 : Heap → DynBuffer → ℕ → Run (ℤ × DynBuffer)
push_back_int8 heap d v = push_back_value heap d 1 v

pub push_back_int16 : Heap → DynBuffer → ℕ → Run (ℤ × DynBuffer)
push_back_int16 heap d v = push_back_value heap d 2 v

pub push_back_int32 : Heap → DynBuffer → ℕ → Run (ℤ × DynBuffer)
push_back_int32 heap d v = push_back_value heap d 4 v

pub push_back_int64 : Heap → DynBuffer → ℕ → Run (ℤ × DynBuffer)
push_back_int64 heap d v = push_back_value heap d 8 v

pub push_back_uint8 : Heap → DynBuffer → ℕ → Run (ℤ × DynBuffer)
push_back_uint8 heap d v = push_back_value heap d 1 v

pub push_back_uint16 : Heap → DynBuffer → ℕ → Run (ℤ × DynBuffer)
push_back_uint16 heap d v = push_back_value heap d 2 v

pub push_back_uint32 : Heap → DynBuffer → ℕ → Run (ℤ × DynBuffer)
push_back_uint32 heap d v = push_back_value heap d 4 v

pub push_back_uint64 : Heap → DynBuffer → ℕ → Run (ℤ × DynBuffer)
push_back_uint64 heap d v = push_back_value heap d 8 v

pub push_back_float32 : Heap → DynBuffer → ℕ → Run (ℤ × DynBuffer)
push_back_float32 heap d v = push_back_value heap d 4 v

pub push_back_float64 : Heap → DynBuffer → ℕ → Run (ℤ × DynBuffer)
push_back_float64 heap d v = push_back_value heap d 8 v

pub clear : DynBuffer → DynBuffer
clear d = elim (d.block) [ null ↦ d | _ ↦ record d { size = 0; pos_offset = 0 } ]

pub get_size : DynBuffer → ℕ
get_size d = d.size

pub get_data : DynBuffer → Pointer
get_data d = d.block

-- The comparison and the sum are in `size_t`; the offset is not INT_MIN, which C cannot negate.
pub move_pose_indicator : DynBuffer → ℤ → DynBuffer
move_pose_indicator d (pos o) =
    if ltb 0 o && leb (sub_size d.size o) d.pos_offset
    then record d { pos_offset = d.size }
    else record d { pos_offset = add_size d.pos_offset o }
move_pose_indicator d (negsuc k) =
    if leb d.pos_offset (suc k)
    then record d { pos_offset = 0 }
    else record d { pos_offset = add_size d.pos_offset (size_of_int (negsuc k)) }

pub set_pose_indicator : DynBuffer → ℕ → DynBuffer
set_pose_indicator d p =
    if ltb d.size p then record d { pos_offset = d.size } else record d { pos_offset = p }

pub rewind_pose_indicator : DynBuffer → DynBuffer
rewind_pose_indicator d = record d { pos_offset = 0 }

pub get_pose_indicator_offset : DynBuffer → ℕ
get_pose_indicator_offset d = d.pos_offset

-- The block and the offset into it.
pub get_current_data : DynBuffer → Pointer × ℕ
get_current_data d = (d.block, d.pos_offset)

-- memcpy of n bytes out of the buffer's storage.
pub copy_out : Pointer → ℕ → ℕ → Run (List Cell)
copy_out null i n = if n == 0 then done [] else fault
copy_out (live blk) i n = read blk i n
copy_out dangling i n = fault

-- -1 and no copy, or 0 and the cells that go to `cont_buf`.
pub get_current_content : DynBuffer → ℕ → Run (ℤ × List Cell)
get_current_content d n =
    if ltb d.size (add_size d.pos_offset n)
    then done (minus_one, [])
    else copy_out d.block d.pos_offset n >>= λ cells. done (pos 0, cells)

pub get_remaining_data_size : DynBuffer → ℕ
get_remaining_data_size d = sub_size d.size d.pos_offset
