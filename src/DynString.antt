-- ===== src/DynString.antt =====
-- src/dyn_string.c and include/dyn_string.h: a NUL-terminated string that grows, with a cursor.
-- The `int` fields are never negative between calls and are natural numbers here; an `int` that
-- overflows is undefined behaviour. Lengths and positions that callers pass are natural numbers
-- too (they pass strlen and differences of pointers); offsets of the cursor are signed.
pub mod Valid
pub mod Push
pub mod Chars
pub mod Edit
pub mod Reduce
pub mod Cursor
pub mod Texts
pub mod Agrees
mod Tests
use cros.Common.{
  List, Option, [], if◌then◌else◌, leb, length, ltb, minus_one, negsuc, none, pos, some, suc, ℕ, ℤ,
  ◌*◌, ◌+◌, ◌-◌, ◌∷◌,
}
use cros.Mem.{
  Block, Heap, Pointer, Run, dangling, done, fault, int, live, malloc, null, read, read_buf,
  realloc, write, write_cells, ◌>>=◌,
}

-- `block` is the field `data`: NULL until the first append. `max` does not count the NUL.
pub record DynString : Type 0 where
  pub len : ℕ
  pub pos_offset : ℕ
  pub max : ℕ
  pub block : Pointer

abbrev pub init_size : ℕ
init_size = 256

abbrev pub grow_rate : ℕ
grow_rate = 2

pub init : DynString
init = record { len = 0; pos_offset = 0; max = 0; block = null }

pub release : DynString → Run DynString
release d = elim (d.block) [
  | null ↦ done (record d { len = 0; pos_offset = 0; max = 0 })
  | live blk ↦ done (record { len = 0; pos_offset = 0; max = 0; block = null })
  | dangling ↦ fault
]

-- The copy behind the content, the new length and the NUL.
pub append : DynString → Block → List ℕ → ℕ → Run (ℤ × DynString)
append d blk str n = do
  bytes ← read_buf str n
  copied ← write blk d.len bytes
  len' ← int (d.len + n)
  ended ← write copied len' (0 ∷ [])
  done (pos len', record d { len = len'; block = live ended })

-- realloc to a size computed as an `int`; a NULL result is -1 with the string as it was.
pub regrow : Heap → DynString → Block → ℕ → (Block → Run (ℤ × DynString)) → Run (ℤ × DynString)
regrow heap d blk total k = do
  bytes ← int total
  r ← realloc heap blk bytes
  elim r [ none ↦ done (minus_one, d) | some blk' ↦ k blk' ]

-- dynStringPushBackStrN when memory was allocated before.
pub push_live : Heap → DynString → Block → List ℕ → ℕ → Run (ℤ × DynString)
unfolding regrow
push_live heap d blk str n = do
  need ← int (d.len + n)
  if ltb d.max need
      then regrow heap d blk (grow_rate * d.max + n + 1)
          (λ blk'. append (record d { max = grow_rate * d.max + n; block = live blk' }) blk' str n)
      else append d blk str n

-- dynStringPushBackStrN; `none` is NULL, and n bytes of the string are read.
pub push_back_str_n : Heap → DynString → Option (List ℕ) → ℕ → Run (ℤ × DynString)
push_back_str_n heap d none n = done (minus_one, d)
push_back_str_n heap d (some str) n = elim (d.block) [
  | null ↦ int (init_size + n + 1) >>= λ bytes. elim (malloc heap bytes) [
    | none ↦ done (minus_one, d)
    | some blk ↦ append (record d { len = 0; max = init_size + n; block = live blk }) blk str n
  ]
  | live blk ↦ push_live heap d blk str n
  | dangling ↦ fault
]

-- A C string is its characters without the NUL; strlen of NULL is undefined.
pub push_back_str : Heap → DynString → Option (List ℕ) → Run (ℤ × DynString)
push_back_str heap d none = fault
push_back_str heap d (some str) = push_back_str_n heap d (some str) (length str)

pub replace_with_str_n : Heap → DynString → Option (List ℕ) → ℕ → Run (ℤ × DynString)
replace_with_str_n heap d str n = push_back_str_n heap (record d { len = 0; pos_offset = 0 }) str n

-- The character, the new length and the NUL.
pub append_char : DynString → Block → ℕ → Run (ℤ × DynString)
append_char d blk c = do
  copied ← write blk d.len (c ∷ [])
  len' ← int (d.len + 1)
  ended ← write copied len' (0 ∷ [])
  done (pos len', record d { len = len'; block = live ended })

pub push_char_live : Heap → DynString → Block → ℕ → Run (ℤ × DynString)
unfolding regrow
push_char_live heap d blk c = do
  need ← int (d.len + 1)
  if ltb d.max need
      then regrow heap d blk (grow_rate * d.max + 2)
          (λ blk'. append_char (record d { max = grow_rate * d.max + 1; block = live blk' }) blk' c)
      else append_char d blk c

pub push_back_char : Heap → DynString → ℕ → Run (ℤ × DynString)
push_back_char heap d c = elim (d.block) [
  | null ↦ elim (malloc heap (init_size + 2)) [
    | none ↦ done (minus_one, d)
    | some blk ↦ write blk 0 (0 ∷ []) >>= λ ended.
        append_char (record d { len = 0; max = init_size + 1; block = live ended }) ended c
  ]
  | live blk ↦ push_char_live heap d blk c
  | dangling ↦ fault
]

-- The copy over the content at p, and a NUL if the content has become longer.
pub patch_block : DynString → Block → List ℕ → ℕ → ℕ → Run (ℤ × DynString)
patch_block d blk str p final = do
  copied ← write blk p str
  if ltb d.len final
      then (do
        ended ← write copied final (0 ∷ [])
        done (pos final, record d { len = final; block = live ended }))
      else done (pos d.len, record d { block = live copied })

pub patch_live : Heap → DynString → Block → List ℕ → ℕ → Run (ℤ × DynString)
unfolding regrow
patch_live heap d blk str p = do
  final ← int (p + length str)
  if ltb d.max final
      then regrow heap d blk (grow_rate * d.max + length str + 1) (λ blk'.
        patch_block (record d { max = grow_rate * d.max + length str; block = live blk' }) blk' str
          p final)
      else patch_block d blk str p final

-- dynStringPatch; a position that is negative is not checked by the code.
pub patch : Heap → DynString → Option (List ℕ) → ℕ → Run (ℤ × DynString)
patch heap d none p = done (minus_one, d)
patch heap d (some str) p = elim (d.block) [
  | null ↦ done (minus_one, d)
  | live blk ↦ if ltb d.len p then done (minus_one, d) else patch_live heap d blk str p
  | dangling ↦ fault
]

pub clear : DynString → Run DynString
clear d = elim (d.block) [
  | null ↦ done d
  | live blk ↦ write blk 0 (0 ∷ []) >>= λ ended.
      done (record d { len = 0; pos_offset = 0; block = live ended })
  | dangling ↦ fault
]

-- `l` and `r` are the clamped numbers of characters to remove at either end. The cursor moves with
-- the content: subtraction stops at 0, as the code's test for a negative cursor makes it.
pub reduce_block : DynString → Block → ℕ → ℕ → Run DynString
reduce_block d blk l r = do
  kept ← read blk l (d.len - (l + r))
  moved ← write_cells blk 0 kept
  ended ← write moved (d.len - (l + r)) (0 ∷ [])
  done (record {
    len = d.len - (l + r);
    pos_offset =
        if ltb (d.len - (l + r)) (d.pos_offset - l) then d.len - (l + r) else d.pos_offset - l;
    max = d.max;
    block = live ended;
  })

-- The clamps of the two arguments.
pub reduce_live : DynString → Block → ℕ → ℕ → Run DynString
reduce_live d blk l rem_right = do
  total ← int (l + rem_right)
  reduce_block d blk l (if ltb d.len total then d.len - l else rem_right)

pub reduce : DynString → ℕ → ℕ → Run DynString
reduce d rem_left rem_right = elim (d.block) [
  | null ↦ done d
  | live blk ↦ reduce_live d blk (if ltb d.len rem_left then d.len else rem_left) rem_right
  | dangling ↦ fault
]

pub get_len : DynString → ℕ
get_len d = d.len

pub get_data : DynString → Pointer
get_data d = d.block

-- A cursor below 0 goes to 0, and one past the end goes to the end.
pub clamp_cursor : DynString → ℤ → DynString
clamp_cursor d (pos p) =
    if ltb d.len p then record d { pos_offset = d.len } else record d { pos_offset = p }
clamp_cursor d (negsuc k) = record d { pos_offset = 0 }

-- `pos_offset + offset`, an `int`.
pub moved_cursor : ℕ → ℤ → Run ℤ
moved_cursor p (pos o) = int (p + o) >>= λ q. done (pos q)
moved_cursor p (negsuc k) = done (if ltb k p then pos (p - suc k) else negsuc (k - p))

pub move_pose_indicator : DynString → ℤ → Run DynString
move_pose_indicator d offset = moved_cursor d.pos_offset offset >>= λ q. done (clamp_cursor d q)

pub set_pose_indicator : DynString → ℤ → DynString
set_pose_indicator d p = clamp_cursor d p

pub rewind_pose_indicator : DynString → DynString
rewind_pose_indicator d = record d { pos_offset = 0 }

pub get_pose_indicator_offset : DynString → ℕ
get_pose_indicator_offset d = d.pos_offset

-- The block and the offset into it.
pub get_current_data : DynString → Pointer × ℕ
get_current_data d = (d.block, d.pos_offset)

-- `len - pos_offset`, an `int`.
pub get_remaining_data_size : DynString → ℤ
get_remaining_data_size d =
    if leb d.pos_offset d.len then pos (d.len - d.pos_offset) else negsuc (d.pos_offset - d.len - 1)
