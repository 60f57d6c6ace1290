-- ===== src/DynBuffer/Values.antt =====
-- Typed values: what dynBufferPushBackInt8 to dynBufferPushBackFloat64 append can be read back.
use native.Mathlib.Nat.{pow-suc}
use cros.Common.{
  List, Option, [], ap, arith, drop, drop-append_eq, length, length-append, le→ltb_false, map,
  minus_one, none, pos, refl, some, suc, take, take-all, zero, ℕ, ℤ, ◌*◌, ◌++◌, ◌+◌, ◌/◌, ◌<◌, ◌^◌,
  ◌∙◌, ◌∷◌, ◌≡◌, ◌≢◌, ◌≤◌,
}
use cros.Mem.{Cell, Heap, IsHeap, done, max_object}
use cros.DynBuffer.{
  DynBuffer, get_current_content, get_remaining_data_size, le_bytes, push_back_value,
}
use cros.DynBuffer.Valid.{CursorInside, Holds, Holds-small}
use cros.DynBuffer.Cursor.{get_current_content_lem, get_remaining_data_size_lem}
use cros.DynBuffer.Push.{push_back_buf-Pushed}
use cros.DynBuffer.Append.{Pushed-success}

-- The value that k bytes of memory stand for on a little-endian host.
abbrev pub from_le : List ℕ → ℕ
from_le [] = 0
from_le (b ∷ bytes) = b + 256 * from_le bytes

pub length-le_bytes : (k v : ℕ) → length (le_bytes k v) ≡ k
unfolding le_bytes
length-le_bytes zero v = refl
length-le_bytes (suc k) v = ap suc (length-le_bytes k (v / 256))

pub from_le-le_bytes : (k v : ℕ) → v < 256 ^ k → from_le (le_bytes k v) ≡ v
unfolding le_bytes
from_le-le_bytes zero v h = omega arith
from_le-le_bytes (suc k) v h =
    omega (arith, from_le-le_bytes k (v / 256) (omega (arith, pow-suc 256 k)))

-- The bytes that a read delivers, if all of them are initialised.
abbrev pub initialised : List Cell → Option (List ℕ)
initialised [] = some []
initialised (none ∷ cells) = none
initialised (some b ∷ cells) = elim (initialised cells) [ none ↦ none | some bs ↦ some (b ∷ bs) ]

initialised-map : (bytes : List ℕ) → initialised (map some bytes) ≡ some bytes
initialised-map [] = refl
initialised-map (b ∷ bytes) = rw (initialised-map bytes)

module _ (heap : Heap) (valid : IsHeap heap) (d : DynBuffer) (bytes : List ℕ) (k v : ℕ) where
  -- A k-byte value that is appended at the cursor can be read back: when the push does not return
  -- -1, reading k bytes at the cursor of the new buffer succeeds, and they stand for the value.
  pub push_back_value-read :
      {ret : ℤ} {d' : DynBuffer}
      → Holds d bytes
      → d.pos_offset ≡ d.size
      → v < 256 ^ k
      → k ≤ 8
      → push_back_value heap d k v ≡ done (ret, d')
      → ret ≢ minus_one
      → (cells : List Cell) × (read_bytes : List ℕ) × (get_current_content d' k
          ≡ done (pos 0, cells))
        × (initialised cells ≡ some read_bytes)
        × (from_le read_bytes ≡ v)
  unfolding push_back_value
  push_back_value-read {ret} {d'} h at_end small width e ne = (
    map some (le_bytes k v),
    le_bytes k v,
    read_back,
    initialised-map (le_bytes k v),
    from_le-le_bytes k v small,
  )
    where
      all : take k (le_bytes k v) ≡ le_bytes k v
      all = take-all k (le_bytes k v) (omega (arith, length-le_bytes k v))

      after : (d'.pos_offset ≡ d.pos_offset) × Holds d' (bytes ++ le_bytes k v)
      after = rw (← all) (
          Pushed-success
            (push_back_buf-Pushed heap valid d bytes k (le_bytes k v) h
              (omega (arith, length-le_bytes k v)) (omega arith))
            e ne)

      total : length (bytes ++ le_bytes k v) ≡ d'.pos_offset + k
      total =
          omega
            (arith, length-append {0} bytes (le_bytes k v), length-le_bytes k v, h.size_eq, after.0)

      inside : CursorInside d'
      inside = omega (arith, total, after.1.size_eq)

      small' : d'.size ≤ max_object
      small' = omega (arith, Holds-small d' (bytes ++ le_bytes k v) after.1, after.1.size_eq)

      left : k ≤ get_remaining_data_size d'
      left = omega (arith, get_remaining_data_size_lem d' inside small', total, after.1.size_eq)

      content : take k (drop d'.pos_offset (bytes ++ le_bytes k v)) ≡ le_bytes k v
      content =
          ap (take k)
            (drop-append_eq d'.pos_offset bytes (le_bytes k v) (omega (arith, after.0, h.size_eq)))
          ∙ all

      read_back : get_current_content d' k ≡ done (pos 0, map some (le_bytes k v))
      read_back =
          get_current_content_lem d' (bytes ++ le_bytes k v) k after.1 inside (omega arith)
          ∙ rw (le→ltb_false (get_remaining_data_size d') k left)
              (ap (λ (l : List ℕ). done (pos 0, map some l)) content)
