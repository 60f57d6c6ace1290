-- ===== src/Message/Arrays/Access.antt =====
-- A pushed element against arrayFieldValueAt.
use cros.Common.{
  List, ap, arith, drop-append_eq, int_max, length-append, le→ltb_false, map, pos, refl, some, take,
  take-all, true, ℕ, ℤ, ◌*◌, ◌+◌, ◌∙◌, ◌≡◌, ◌≤◌,
}
use cros.DynBuffer.{le_bytes}
use cros.DynBuffer.Values.{length-le_bytes}
use cros.Mem.{Answers, Run, done, read}
use cros.Mem.Blocks.{read_within}
use cros.Message.{Data, Field, FieldHead, MessageType, field}
use cros.Message.Copy.{count}
use cros.Message.Types.{type_size}
use cros.Message.Arrays.{is_type, is_variable, push_back_of, values_push_back}
use cros.Message.Elements.{at_of, value_at}
use cros.Message.Arrays.Pushes.{ArrayHolds, ValuesPushed, values_push_back-ValuesPushed}

-- An element was appended, and the access by its index leads to its bytes.
pub record ElementPushed (a : Answers) (ty : MessageType) (h : FieldHead) (bytes : List ℕ) (v : ℕ)
    (r : Run (ℤ × Field × Answers)) : Type 0 where
  pub pushed : ValuesPushed a h (type_size ty) bytes (le_bytes (type_size ty) v) 1 r
  pub offset : ℕ
  pub found : at_of ty (pushed.h') (pos (count h.array_size)) ≡ some offset
  pub reads :
      read pushed.held.blk offset (type_size ty) ≡ done (map some (le_bytes (type_size ty) v))

is_variable-is_array : (h : FieldHead) → is_variable h ≡ true → h.is_array ≡ true
is_variable-is_array h e = ground arith

at_last :
    (ty : MessageType) (h : FieldHead) (k : ℕ)
    → is_type h.type ty ≡ true
    → h.is_array ≡ true
    → h.array_size ≡ pos (k + 1)
    → at_of ty h (pos k) ≡ some (k * type_size ty)
unfolding at_of value_at
at_last ty h k same array size = rw (same, array, size, le→ltb_false (k + 1) k (omega arith)) refl

-- cRosMessageFieldArrayPushBackInt8 to PushBackFloat64 on an array of variable length of their type
-- whose elements are well formed, with memory, a count whose triple is an `int` and a size in bytes that
-- is one: the function returns 0, the
-- array holds the value behind the old elements, and the access function of the type finds its bytes
-- at the index that was the size.
pub push_back_of-at :
    (ty : MessageType) (a : Answers) (h : FieldHead) (d : Data) (bytes : List ℕ) (v : ℕ)
    → is_type h.type ty ≡ true
    → is_variable h ≡ true
    → ArrayHolds h d (type_size ty) bytes
    → (count h.array_size + 1) * 3 ≤ int_max
    → (count h.array_size + 1) * type_size ty ≤ int_max
    → a 0 ≡ true
    → ElementPushed a ty h bytes v (push_back_of ty a (field h d) v)
unfolding push_back_of
push_back_of-at ty a h d bytes v same variable holds small little memory = rw same (record {
  pushed = p;
  offset = count h.array_size * type_size ty;
  found =
      at_last ty p.h' (count h.array_size)
        (ap (λ (t : MessageType). is_type t ty) p.same_type ∙ same)
        (p.still_array ∙ is_variable-is_array h variable) p.more;
  reads =
      read_within (count h.array_size * type_size ty) (type_size ty)
        (omega (
          arith,
          holds.size_eq,
          length-append {0} bytes (le_bytes (type_size ty) v),
          length-le_bytes (type_size ty) v,
        ))
        p.held.begins
      ∙ ap (λ (l : List ℕ). done (map some l))
          (ap (take (type_size ty)) (
              drop-append_eq (count h.array_size * type_size ty) bytes (le_bytes (type_size ty) v)
                holds.size_eq)
            ∙ take-all (type_size ty) (le_bytes (type_size ty) v)
                (omega (arith, length-le_bytes (type_size ty) v)));
})
  where
    p :
        ValuesPushed a h
          (type_size ty)
          bytes
          (le_bytes (type_size ty) v)
          1
          (values_push_back a (field h d) (le_bytes (type_size ty) v) (type_size ty) 1)
    p =
        values_push_back-ValuesPushed a h d (type_size ty) 1 bytes (le_bytes (type_size ty) v)
          variable holds (omega (arith, length-le_bytes (type_size ty) v)) small
          (omega (arith, length-le_bytes (type_size ty) v, holds.size_eq)) memory
