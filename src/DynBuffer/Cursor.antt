-- ===== src/DynBuffer/Cursor.antt =====
-- The cursor of a DynBuffer, and reading at it.
use cros.Common.{
  Bool-cases, List, [], add_size, ap, arith, drop, if◌then◌else◌, inl, inr, int_max, leb, length,
  ltb, map, min, minus_one, negsuc, pos, some, sub_size, suc, take, ℕ, ◌&&◌, ◌+◌, ◌-◌, ◌<◌, ◌↔◌,
  ◌≡◌, ◌≤◌,
}
use cros.Mem.{Pointer, dangling, done, live, max_object, null}
use cros.Mem.Blocks.{read_within}
use cros.DynBuffer.{
  DynBuffer, copy_out, get_current_content, get_remaining_data_size, move_pose_indicator,
}
use cros.DynBuffer.Valid.{CursorInside, Holds, Holds-small, Storage}

module _ (d : DynBuffer) (inside : CursorInside d) (small : d.size ≤ max_object) where
  -- Moving forward by an `int`, from inside the content of a buffer that is no larger than an
  -- object can be: when the offset is not larger than the whole content, the cursor stops at
  -- the end and is inside; a larger offset makes `size - offset` wrap and takes the cursor
  -- past the end.
  pub move_forward :
      (o : ℕ)
      → o ≤ int_max
      → (CursorInside (move_pose_indicator d (pos o)) ↔ (o ≤ d.size))
        × ((move_pose_indicator d (pos o)).pos_offset
            ≡ (if leb o d.size then min d.size (d.pos_offset + o) else d.pos_offset + o))
  unfolding move_pose_indicator
  move_forward o fits = ground arith

  -- Moving back by an offset other than INT_MIN, from inside the content of a buffer that is
  -- no larger than an object can be: the cursor goes back by the offset, stops at 0 and is
  -- inside.
  pub move_back :
      (k : ℕ)
      → k < int_max
      → ((move_pose_indicator d (negsuc k)).pos_offset ≡ d.pos_offset - suc k)
        × CursorInside (move_pose_indicator d (negsuc k))
  unfolding move_pose_indicator
  move_back k fits = ground arith

pub get_remaining_data_size_lem :
    (d : DynBuffer)
    → CursorInside d
    → d.size ≤ max_object
    → get_remaining_data_size d ≡ d.size - d.pos_offset
unfolding get_remaining_data_size
get_remaining_data_size_lem d inside small = omega arith

pub copy_out_within :
    (p : Pointer) (i n max : ℕ) (bytes : List ℕ)
    → Storage p max bytes
    → i + n ≤ length bytes
    → copy_out p i n ≡ done (map some (take n (drop i bytes)))
unfolding copy_out
copy_out_within null i n max bytes s h = let e : n ≡ 0 = omega (arith, ap length s.1) in rw e
copy_out_within (live blk) i n max bytes s h = read_within i n h s.3
copy_out_within dangling i n max bytes s h = absurd s

-- Reading n bytes at the cursor of a well-formed buffer gives -1 when fewer are left, and else
-- exactly the next n bytes of the content; it never reads outside of the storage.
pub get_current_content_lem :
    (d : DynBuffer) (bytes : List ℕ) (n : ℕ)
    → Holds d bytes
    → CursorInside d
    → n ≤ max_object
    → get_current_content d n ≡ (
        if ltb (get_remaining_data_size d) n
        then done (minus_one, [])
        else done (pos 0, map some (take n (drop d.pos_offset bytes))))
unfolding get_current_content get_remaining_data_size
get_current_content_lem d bytes n h inside fits =
    ground
      (arith, copy_out_within d.block d.pos_offset n d.max bytes h.storage, Holds-small d bytes h)

-- Moving forward within the content changes the cursor alone.
pub move_within :
    (d : DynBuffer) (o : ℕ)
    → d.pos_offset + o ≤ d.size
    → d.size ≤ max_object
    → move_pose_indicator d (pos o) ≡ record d { pos_offset = d.pos_offset + o }
unfolding move_pose_indicator
move_within d o fits small = elim (Bool-cases (ltb 0 o && leb (sub_size d.size o) d.pos_offset)) [
  | inl at_end ↦
      let e : d.size ≡ d.pos_offset + o = ground arith in
      rw at_end (ap (λ (p : ℕ). record d { pos_offset = p }) e)
  | inr before ↦
      let e : add_size d.pos_offset o ≡ d.pos_offset + o = omega arith in
      rw before (ap (λ (p : ℕ). record d { pos_offset = p }) e)
]
