-- ===== src/Message/Arrays.antt =====
-- src/cros_message.c: access to the fields of a message and to the elements of an array field. The
-- entries of an array's block beyond its elements are never read; where the code leaves pointers to
-- freed memory there, the model has NULL.
pub mod Pushes
pub mod Access
mod Tests
use cros.Common.{
  Bool, List, Option, [], false, if◌then◌else◌, int_of_size, leb, length, minus_one, negsuc, none,
  not, pos, replicate, some, suc, true, zero, ℕ, ℤ, ◌&&◌, ◌*◌, ◌++◌, ◌+◌, ◌-◌, ◌/◌, ◌==◌, ◌||◌, ◌∷◌,
}
use cros.Common.Text.{same_text}
use cros.DynBuffer.{le_bytes}
use cros.Mem.{Answers, Block, Run, done, fault, int, later, read_buf, resize, write, ◌>>=◌}
use cros.Message.{
  Data, Field, FieldHead, Fields, Message, MessageType, Messages, Text, as_array, as_msg_array,
  as_string, as_string_array, bool_type, byte_type, char_type, custom_type, duration_type, field,
  float32_type, float64_type, header_type, int16_type, int32_type, int64_type, int8_type, kind,
  nested, no_fields, no_messages, null_array, null_field, null_message, string_type, time_type,
  uint16_type, uint32_type, uint64_type, uint8_type, with_field, with_message,
}
use cros.Message.Copy.{count, join}
use cros.Message.Types.{type_size}
use cros.Message.Valid.{messages_length}

-- The places of the enumeration.
abbrev type_code : MessageType → ℕ
type_code custom_type = 0
type_code int8_type = 1
type_code uint8_type = 2
type_code int16_type = 3
type_code uint16_type = 4
type_code int32_type = 5
type_code uint32_type = 6
type_code int64_type = 7
type_code uint64_type = 8
type_code float32_type = 9
type_code float64_type = 10
type_code string_type = 11
type_code bool_type = 12
type_code time_type = 13
type_code duration_type = 14
type_code header_type = 15
type_code char_type = 16
type_code byte_type = 17

abbrev pub is_type : MessageType → MessageType → Bool
is_type a b = type_code a == type_code b

abbrev pub is_nested : MessageType → Bool
is_nested ty = elim (kind ty) [ nested ↦ true | _ ↦ false ]

-- An array of variable length.
abbrev pub is_variable : FieldHead → Bool
is_variable h = h.is_array && not h.is_fixed_array

-- cRosMessageGetField: the field, or `none` for NULL.
unfoldable pub get_field : Fields → Text → Run (Option Field)
get_field no_fields name = done none
get_field (null_field fs) name = fault
get_field (with_field (field h d) fs) name = elim (h.name) [
  | none ↦ fault
  | some t ↦ if same_text t name then done (some (field h d)) else get_field fs name
]

-- cRosMessageSetFieldValueString
unfoldable pub set_field_value_string : Answers → Field → Text → Run (ℤ × Field × Answers)
set_field_value_string a (field h (as_string t)) value =
    if not (is_type h.type string_type)
    then done (minus_one, field h (as_string t), a)
    else if a 0
    then done (
      pos 0,
      field (record h { size = int_of_size (length value) }) (as_string (some value)),
      later a,
    )
    else done (minus_one, field h (as_string none), later a)
set_field_value_string a (field h d) value =
    if not (is_type h.type string_type) then done (minus_one, field h d, a) else fault

-- The block that an array field points at; NULL has no cells.
abbrev pub block_of : Data → Run Block
block_of (as_array blk) = done blk
block_of null_array = done []
block_of d = fault

-- The end of arrayFieldValuesPushBack: memcpy behind the elements. The offset and the number of
-- bytes are products of two `int`s.
unfoldable pub values_copy : FieldHead → Block → List ℕ → ℕ → ℕ → Run (ℤ × Field)
values_copy h blk bytes element n = int (count h.array_size * element) >>= λ behind.
    int (element * n) >>= λ total. read_buf bytes total >>= λ new. write blk behind new >>= λ blk'.
    done (pos 0, field (record h { array_size = pos (count h.array_size + n) }) (as_array blk'))

abbrev pub is_negative : ℤ → Bool
is_negative (pos n) = false
is_negative (negsuc k) = true

-- arrayFieldValuesPushBack with n elements of `element` bytes, given as their bytes. The `int`
-- arithmetic must not overflow, and below 0 there are no elements to write behind.
unfoldable pub values_push_back : Answers → Field → List ℕ → ℕ → ℕ → Run (ℤ × Field × Answers)
values_push_back a (field h d) bytes element n =
    if not (is_variable h)
    then done (minus_one, field h d, a)
    else if is_negative h.array_size
    then fault
    else int (count h.array_size + n) >>= λ size. block_of d >>= λ blk.
        if leb size (count h.array_capacity)
        then (values_copy h blk bytes element n >>= λ r. done (r.0, r.1, a))
        else int (size * 3) >>= λ triple.
            if a 0
            then (values_copy (record h { array_capacity = pos (triple / 2) })
                  (resize (triple / 2 * element) blk) bytes element n
                >>= λ r. done (r.0, r.1, later a))
            else done (minus_one, field h d, later a)

-- cRosMessageFieldArrayPushBackInt8 to cRosMessageFieldArrayPushBackFloat64, by the type; the value
-- is its bit pattern.
unfoldable pub push_back_of : MessageType → Answers → Field → ℕ → Run (ℤ × Field × Answers)
push_back_of ty a (field h d) v =
    if not (is_type h.type ty)
    then done (minus_one, field h d, a)
    else values_push_back a (field h d) (le_bytes (type_size ty) v) (type_size ty) 1

-- The growth that the two functions below share: the capacity doubles, and realloc to no bytes is
-- left undefined. `none` is no memory, else the new capacity.
unfoldable pub double_capacity : Answers → FieldHead → Run (Option ℕ × Answers)
double_capacity a h =
    if not (count h.array_capacity == count h.array_size)
    then done (some (count h.array_capacity), a)
    else if count h.array_capacity == 0
    then fault
    else int (2 * count h.array_capacity) >>= λ room.
        done (if a 0 then some room else none, later a)

-- A write to entry i of a block of pointers.
unfoldable pub set_text : ℕ → Option Text → List (Option Text) → Run (List (Option Text))
set_text i t [] = fault
set_text zero t (u ∷ ts) = done (t ∷ ts)
set_text (suc i) t (u ∷ ts) = set_text i t ts >>= λ ts'. done (u ∷ ts')

unfoldable pub set_message : ℕ → Message → Messages → Run Messages
set_message i m no_messages = fault
set_message zero m (null_message ms) = done (with_message m ms)
set_message zero m (with_message u ms) = done (with_message m ms)
set_message (suc i) m (null_message ms) = set_message i m ms >>= λ ms'. done (null_message ms')
set_message (suc i) m (with_message u ms) = set_message i m ms >>= λ ms'. done (with_message u ms')

-- The new entries of a block that has grown to `room` pointers.
abbrev pub grown_texts : ℕ → List (Option Text) → List (Option Text)
grown_texts room ts = ts ++ replicate (room - length ts) none

-- The end of cRosMessageFieldArrayPushBackString: the copy of the text, and the entry.
unfoldable pub string_entry :
    Answers → FieldHead → List (Option Text) → Option Text → Run (ℤ × Field × Answers)
string_entry a h ts none = set_text (count h.array_size) none ts >>= λ ts'.
    done (
      pos 0,
      field (record h { array_size = pos (count h.array_size + 1) }) (as_string_array ts'),
      a,
    )
string_entry a h ts (some t) =
    if a 0
    then (set_text (count h.array_size) (some t) ts >>= λ ts'. done (
      pos 0,
      field (record h { array_size = pos (count h.array_size + 1) }) (as_string_array ts'),
      later a,
    ))
    else done (minus_one, field h (as_string_array ts), later a)

-- cRosMessageFieldArrayPushBackString
unfoldable pub push_back_string : Answers → Field → Option Text → Run (ℤ × Field × Answers)
push_back_string a (field h (as_string_array ts)) val =
    if not (is_type h.type string_type) || not (is_variable h)
    then done (minus_one, field h (as_string_array ts), a)
    else double_capacity a h >>= λ r. elim (r.0) [
      | none ↦ done (minus_one, field h (as_string_array ts), r.1)
      | some room ↦
          string_entry (r.1) (record h { array_capacity = pos room }) (grown_texts room ts) val
    ]
push_back_string a (field h d) val =
    if not (is_type h.type string_type) || not (is_variable h)
    then done (minus_one, field h d, a)
    else fault

-- cRosMessageFieldArrayPushBackMsg
unfoldable pub push_back_msg : Answers → Field → Message → Run (ℤ × Field × Answers)
push_back_msg a (field h (as_msg_array ms)) m =
    if not (is_nested h.type) || not (is_variable h)
    then done (minus_one, field h (as_msg_array ms), a)
    else double_capacity a h >>= λ r. elim (r.0) [
      | none ↦ done (minus_one, field h (as_msg_array ms), r.1)
      | some room ↦
          set_message (count h.array_size) m (join ms (room - messages_length ms)) >>= λ ms'. done (
            pos 0,
            field
                (record h { array_size = pos (count h.array_size + 1); array_capacity = pos room })
                (as_msg_array ms'),
            r.1,
          )
    ]
push_back_msg a (field h d) m =
    if not (is_nested h.type) || not (is_variable h) then done (minus_one, field h d, a) else fault
