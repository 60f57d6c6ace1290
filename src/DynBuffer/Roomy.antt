-- ===== src/DynBuffer/Roomy.antt =====
-- Pushes while the allocator has memory: they append.
use cros.Common.{
  Bool, Bool-cases, List, [], add_size, ap, arith, inl, inr, length, length-replicate, ltb,
  ltb_false→le, ltb→lt, none, replicate, some, subst, suc, take, take-all, true, zero, ℕ, ◌*◌, ◌+◌,
  ◌<◌, ◌^◌, ◌∙◌, ◌≡◌, ◌≤◌,
}
use cros.Mem.{
  Block, Cell, Heap, IsHeap, Pointer, Run, dangling, done, live, malloc, max_object, null, resize,
}
use cros.Mem.Blocks.{BeginsWith, BeginsWith-nil, BeginsWith-resize, length-resize}
use cros.DynBuffer.{
  DynBuffer, grow, grow_fuel, init_size, le_bytes, push_back_buf, push_back_int32, push_back_value,
  push_bytes, push_live,
}
use cros.DynBuffer.Values.{length-le_bytes}
use cros.DynBuffer.Valid.{Holds, Storage}
use cros.DynBuffer.Append.{Appended, append-Appended}
use cros.DynBuffer.Grow.{double_fuel, grow_goes_on, grow_stops}

-- The allocator has every size up to 2 ^ 32, and none above PTRDIFF_MAX.
pub record IsRoomy (heap : Heap) : Type 0 where
  pub valid : IsHeap heap
  pub roomy : (n : ℕ) → n ≤ 2 ^ 32 → heap n ≡ true

-- The growth loop ended with enough room.
record Enough (bytes : List ℕ) (need : ℕ) (r : Run (Bool × ℕ × Block)) : Type 0 where
  max' : ℕ
  blk' : Block
  returns : r ≡ done (true, max', blk')
  capacity : length blk' ≡ max'
  positive : 1 ≤ max'
  small : max' ≤ max_object
  keeps : BeginsWith blk' bytes
  room : need ≤ max'

module _ (heap : Heap) (h : IsRoomy heap) (need : ℕ) (bytes : List ℕ) (few : need ≤ 2 ^ 31) where
  grow-Enough :
      (fuel max : ℕ) (blk : Block)
      → length blk ≡ max
      → 1 ≤ max
      → max ≤ max_object
      → 2 ^ 63 ≤ max * 2 ^ fuel
      → BeginsWith blk bytes
      → Enough bytes need (grow fuel heap need max blk)
  grow-Enough zero max blk len one small enough b = absurd (omega arith)
  grow-Enough (suc fuel) max blk len one small enough b = elim (Bool-cases (ltb max need)) [
    | inl more ↦
        let less : max < need = ltb→lt max need more in
        rw
          (grow_goes_on heap h.valid need bytes fuel max blk one small more
            (h.roomy (2 * max) (omega arith)))
          (grow-Enough fuel (2 * max) (resize (2 * max) blk) (length-resize (2 * max) blk)
            (omega arith) (omega arith) (double_fuel max fuel enough)
            (BeginsWith-resize (2 * max) (omega arith) b))
    | inr fits ↦ record {
      max' = max;
      blk' = blk;
      returns = grow_stops heap h.valid need bytes fuel max blk one small fits;
      capacity = len;
      positive = one;
      small = small;
      keeps = b;
      room = ltb_false→le max need fits;
    }
  ]

module _ (heap : Heap) (h : IsRoomy heap) (cur : ℕ) (bytes buf : List ℕ) (n : ℕ)
    (src : n ≤ length buf) (few : length bytes + n ≤ 2 ^ 31) where
  push_live-Appended :
      (max : ℕ) (blk : Block)
      → length blk ≡ max
      → 1 ≤ max
      → max ≤ max_object
      → BeginsWith blk bytes
      → Appended cur bytes (take n buf) (
          push_live heap
            (record { size = length bytes; pos_offset = cur; max = max; block = live blk })
            blk
            buf
            n)
  unfolding push_live
  push_live-Appended max blk len one small b = rw g.returns (
      append-Appended cur g.max' g.blk' bytes buf n g.capacity g.positive g.small g.keeps src
        (omega (arith, g.room)))
    where
      g :
          Enough bytes
            (add_size (length bytes) n)
            (grow grow_fuel heap (add_size (length bytes) n) max blk)
      g =
          grow-Enough heap h (add_size (length bytes) n) bytes (omega arith) grow_fuel max blk len
            one small (omega arith) b

module _ (heap : Heap) (h : IsRoomy heap) (cur : ℕ) (buf : List ℕ) (n : ℕ)
    (src : n ≤ length buf) where
  malloc-Appended :
      n ≤ 2 ^ 31
      → Appended cur []
          (take n buf)
          (push_bytes heap (record { size = 0; pos_offset = cur; max = 0; block = null }) buf n)
  unfolding push_bytes malloc
  malloc-Appended few =
      rw (push_bytes, h.roomy init_size (omega arith))
        (push_live-Appended heap h cur [] buf n src (omega arith) init_size
          (replicate init_size none) (length-replicate {0} {A = Cell} init_size none) (omega arith)
          (omega arith) (BeginsWith-nil (replicate init_size none)))

  push_bytes-Appended :
      (size max : ℕ) (p : Pointer) (bytes : List ℕ)
      → size ≡ length bytes
      → Storage p max bytes
      → length bytes + n ≤ 2 ^ 31
      → Appended cur bytes
          (take n buf)
          (push_bytes heap (record { size = size; pos_offset = cur; max = max; block = p }) buf n)
  push_bytes-Appended size max null bytes e s few =
      let e' : size ≡ 0 = e ∙ ap length s.1 in rw (e', s.0, s.1) (malloc-Appended (omega arith))
  push_bytes-Appended size max (live blk) bytes e s few = rw e (
      unfold push_bytes in
      push_live-Appended heap h cur bytes buf n src few max blk s.0 s.1 s.2 s.3)
  push_bytes-Appended size max dangling bytes e s few = absurd s

-- dynBufferPushBackBuf of n bytes on a well-formed buffer that stays below 2 GB, while the allocator
-- has memory: the n bytes come behind the content, the result is the new size, the cursor stays.
pub push_back_buf-Appended :
    (heap : Heap) (d : DynBuffer) (bytes : List ℕ) (n : ℕ) (buf : List ℕ)
    → IsRoomy heap
    → Holds d bytes
    → n ≤ length buf
    → length bytes + n ≤ 2 ^ 31
    → Appended d.pos_offset bytes (take n buf) (push_back_buf heap d (some buf) n)
unfolding push_back_buf
push_back_buf-Appended heap d bytes n buf h holds src few =
    push_bytes-Appended heap h d.pos_offset buf n src d.size d.max d.block bytes holds.size_eq
      holds.storage few

-- dynBufferPushBackInt32 in the same way.
pub push_back_int32-Appended :
    (heap : Heap) (d : DynBuffer) (bytes : List ℕ) (v : ℕ)
    → IsRoomy heap
    → Holds d bytes
    → length bytes + 4 ≤ 2 ^ 31
    → Appended d.pos_offset bytes (le_bytes 4 v) (push_back_int32 heap d v)
unfolding push_back_int32 push_back_value
push_back_int32-Appended heap d bytes v h holds few =
    let all : take 4 (le_bytes 4 v) ≡ le_bytes 4 v =
      take-all 4 (le_bytes 4 v) (omega (arith, length-le_bytes 4 v)) in
    subst (λ (l : List ℕ). Appended d.pos_offset bytes l (push_back_value heap d 4 v)) all
      (push_back_buf-Appended heap d bytes 4 (le_bytes 4 v) h holds
        (omega (arith, length-le_bytes 4 v)) few)
