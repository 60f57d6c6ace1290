-- ===== src/DynBuffer/Push.antt =====
-- dynBufferPushBackBuf and dynBufferReplaceContent as a whole.
use cros.Common.{
  Bool-cases, List, [], add_size, ap, arith, inl, inr, length, length-replicate, minus_one, none,
  refl, replicate, some, sym, take, take-nil, ℕ, ◌∙◌, ◌≡◌, ◌≤◌,
}
use cros.Mem.{Block, Cell, Heap, IsHeap, Pointer, dangling, live, malloc, max_object, null}
use cros.Mem.Blocks.{BeginsWith, BeginsWith-length, BeginsWith-nil, BeginsWith-take, length-take_le}
use cros.DynBuffer.{
  DynBuffer, grow, grow_fuel, init_size, push_back_buf, push_bytes, push_live, replace_content,
}
use cros.DynBuffer.Valid.{CursorInside, Holds, Storage}
use cros.DynBuffer.Append.{Pushed, append-Pushed}
use cros.DynBuffer.Grow.{Grown, grow-Grown}

module _ (heap : Heap) (valid : IsHeap heap) (cur : ℕ) (bytes buf : List ℕ) (n : ℕ)
    (src : n ≤ length buf) (object : n ≤ max_object) where
  push_live-Pushed :
      (max : ℕ) (blk : Block)
      → length blk ≡ max
      → 1 ≤ max
      → max ≤ max_object
      → BeginsWith blk bytes
      → Pushed cur bytes (take n buf) (
          push_live heap
            (record { size = length bytes; pos_offset = cur; max = max; block = live blk })
            blk
            buf
            n)
  unfolding push_live
  push_live-Pushed max blk len one small b = elim (Bool-cases g.enough) [
    | inl yes_room ↦
        rw (g.returns, yes_room)
          (append-Pushed cur g.max' g.blk' bytes buf n g.capacity g.positive g.small g.keeps src
            (omega (arith, g.room yes_room, BeginsWith-length b)))
    | inr no_room ↦
        rw (g.returns, no_room)
          (record {
            ret = minus_one;
            d' = record {
              size = length bytes;
              pos_offset = cur;
              max = g.max';
              block = live g.blk';
            };
            returns = refl;
            same_cursor = refl;
            outcome = inr (
              refl,
              record { size_eq = refl; storage = (g.capacity, g.positive, g.small, g.keeps) },
            );
          })
  ]
    where
      g :
          Grown
            (add_size (length bytes) n)
            bytes
            (grow grow_fuel heap (add_size (length bytes) n) max blk)
      g =
          grow-Grown heap valid (add_size (length bytes) n) bytes grow_fuel max blk len one small
            (omega arith) b

module _ (heap : Heap) (valid : IsHeap heap) (cur : ℕ) (buf : List ℕ) (n : ℕ) (src : n ≤ length buf)
    (object : n ≤ max_object) where
  abbrev unallocated : ℕ → DynBuffer
  unallocated size = record { size = size; pos_offset = cur; max = 0; block = null }

  malloc-Pushed : Pushed cur [] (take n buf) (push_bytes heap (unallocated 0) buf n)
  unfolding push_bytes malloc
  malloc-Pushed = elim (Bool-cases (heap init_size)) [
    | inl got ↦
        rw (push_bytes, got)
          (push_live-Pushed heap valid cur [] buf n src object init_size (replicate init_size none)
            (length-replicate {0} {A = Cell} init_size none) (omega arith) (omega arith)
            (BeginsWith-nil (replicate init_size none)))
    | inr no_memory ↦
        rw (push_bytes, no_memory)
          (record {
            ret = minus_one;
            d' = unallocated 0;
            returns = refl;
            same_cursor = refl;
            outcome = inr (refl, record { size_eq = refl; storage = (refl, refl) });
          })
  ]

  push_bytes-Pushed :
      (size max : ℕ) (p : Pointer) (bytes : List ℕ)
      → size ≡ length bytes
      → Storage p max bytes
      → Pushed cur bytes
          (take n buf)
          (push_bytes heap (record { size = size; pos_offset = cur; max = max; block = p }) buf n)
  push_bytes-Pushed size max null bytes e s =
      let e' : size ≡ 0 = e ∙ ap length s.1 in rw (e', s.0, s.1) malloc-Pushed
  push_bytes-Pushed size max (live blk) bytes e s = rw e (
      unfold push_bytes in
      push_live-Pushed heap valid cur bytes buf n src object max blk s.0 s.1 s.2 s.3)
  push_bytes-Pushed size max dangling bytes e s = absurd s

module _ (heap : Heap) (valid : IsHeap heap) (d : DynBuffer) (bytes : List ℕ) (n : ℕ) where
  -- dynBufferPushBackBuf on a well-formed buffer, with n bytes to read in `new_buf`: it returns,
  -- without undefined behaviour and with enough fuel, and either has put the n bytes behind the
  -- content and returns the new size as an `int`, or returns -1 with the content as it was. The
  -- cursor stays and the buffer is well formed again.
  pub push_back_buf-Pushed :
      (buf : List ℕ)
      → Holds d bytes
      → n ≤ length buf
      → n ≤ max_object
      → Pushed d.pos_offset bytes (take n buf) (push_back_buf heap d (some buf) n)
  unfolding push_back_buf
  push_back_buf-Pushed buf h src object =
      push_bytes-Pushed heap valid d.pos_offset buf n src object d.size d.max d.block bytes
        h.size_eq h.storage

Storage-take :
    (p : Pointer) (i max : ℕ) (bytes : List ℕ) → Storage p max bytes → Storage p max (take i bytes)
Storage-take null i max bytes s = (s.0, ap (take i) s.1 ∙ take-nil i)
Storage-take (live blk) i max bytes s = (s.0, s.1, s.2, BeginsWith-take i s.3)
Storage-take dangling i max bytes s = absurd s

module _ (heap : Heap) (valid : IsHeap heap) (d : DynBuffer) (bytes : List ℕ) (n : ℕ) where
  -- dynBufferReplaceContent on a well-formed buffer whose cursor is inside: the content before the
  -- cursor stays, and the n given bytes follow it; on -1 only the content before the cursor is
  -- left. The cursor stays.
  pub replace_content-Pushed :
      (buf : List ℕ)
      → Holds d bytes
      → CursorInside d
      → n ≤ length buf
      → n ≤ max_object
      → Pushed d.pos_offset
          (take d.pos_offset bytes)
          (take n buf)
          (replace_content heap d (some buf) n)
  unfolding replace_content
  replace_content-Pushed buf h inside src object =
      push_back_buf-Pushed heap valid (record d { size = d.pos_offset }) (take d.pos_offset bytes) n
        buf
        (record {
          size_eq = sym (length-take_le d.pos_offset bytes (omega (arith, h.size_eq)));
          storage = Storage-take d.block d.pos_offset d.max bytes h.storage;
        })
        src object
