-- ===== src/Message/Elements.antt =====
-- src/cros_message.c: reading, replacing and removing the elements of an array field, and the sizes
-- of fields and messages.
use cros.Common.{
  Bool, List, Option, [], add_size, drop, false, if◌then◌else◌, leb, length, ltb, minus_one,
  mul_size, negsuc, none, not, pos, replicate, size_of_int, some, suc, zero, ℕ, ℤ, ◌*◌, ◌++◌, ◌-◌,
  ◌==◌, ◌||◌, ◌∷◌,
}
use cros.Mem.{Answers, Run, done, fault, later, ◌>>=◌}
use cros.Message.{
  Data, Field, FieldHead, Fields, Kind, Message, MessageType, Messages, Text, as_msg, as_msg_array,
  as_string_array, field, inside, kind, message, message_release, nested, no_fields, no_messages,
  null_field, null_message, plain, release_messages, string_type, text, with_field, with_message,
}
use cros.Message.Copy.{count}
use cros.Message.Types.{is_builtin_message_type, type_size}
use cros.Message.Arrays.{is_nested, is_type, is_variable, push_back_msg, set_message, set_text}

-- Entry i of a block of pointers.
unfoldable pub message_at : ℕ → Messages → Run (Option Message)
message_at i no_messages = fault
message_at zero (null_message ms) = done none
message_at zero (with_message m ms) = done (some m)
message_at (suc i) (null_message ms) = message_at i ms
message_at (suc i) (with_message m ms) = message_at i ms

unfoldable pub text_at : ℕ → List (Option Text) → Run (Option Text)
text_at i [] = fault
text_at zero (t ∷ ts) = done t
text_at (suc i) (t ∷ ts) = text_at i ts

-- Entry i becomes NULL.
unfoldable pub null_at : ℕ → Messages → Messages
null_at i no_messages = no_messages
null_at zero (null_message ms) = null_message ms
null_at zero (with_message m ms) = null_message ms
null_at (suc i) (null_message ms) = null_message (null_at i ms)
null_at (suc i) (with_message m ms) = with_message m (null_at i ms)

-- cRosMessageFieldArrayRemoveLastMsg: the message is the caller's, and the entry is past the end.
unfoldable pub remove_last_msg : Field → Run (Option Message × Field)
remove_last_msg (field h (as_msg_array ms)) =
    if not (is_nested h.type) || not (is_variable h) || count h.array_size == 0
    then done (none, field h (as_msg_array ms))
    else message_at (count h.array_size - 1) ms >>= λ m. done (
      m,
      field (record h { array_size = pos (count h.array_size - 1) })
          (as_msg_array (null_at (count h.array_size - 1) ms)),
    )
remove_last_msg (field h d) =
    if not (is_nested h.type) || not (is_variable h) || count h.array_size == 0
    then done (none, field h d)
    else fault

-- An index into a block; a negative one is outside.
abbrev pub index : ℤ → Run ℕ
index (pos n) = done n
index (negsuc k) = fault

-- `position >= field->array_size`
abbrev pub past_size : FieldHead → ℤ → Bool
past_size h (pos n) = leb (count h.array_size) n
past_size h (negsuc k) = false

-- cRosMessageFieldArrayAtMsgGet: there is no test for a negative position.
unfoldable pub at_msg_get : Field → ℤ → Run (Option Message)
at_msg_get (field h (as_msg_array ms)) position =
    if not (is_nested h.type) || not h.is_array || past_size h position
    then done none
    else index position >>= λ i. message_at i ms
at_msg_get (field h d) position =
    if not (is_nested h.type) || not h.is_array || past_size h position then done none else fault

-- cRosMessageFree; NULL is allowed.
unfoldable pub free_message : Option Message → Run (Unit {0})
unfolding message_release
free_message none = done tt
free_message (some m) = message_release m

-- cRosMessageFieldArrayAtMsgSet: behind the last element it appends.
unfoldable pub at_msg_set : Answers → Field → ℤ → Message → Run (ℤ × Field × Answers)
unfolding free_message
at_msg_set a (field h (as_msg_array ms)) position m =
    if not (is_nested h.type) || not h.is_array
    then done (minus_one, field h (as_msg_array ms), a)
    else if past_size h position
    then (index position >>= λ i.
        if i == count h.array_size
        then push_back_msg a (field h (as_msg_array ms)) m
        else done (minus_one, field h (as_msg_array ms), a))
    else index position >>= λ i. message_at i ms >>= λ old. free_message old >>= λ u.
        set_message i m ms >>= λ ms'. done (pos 0, field h (as_msg_array ms'), a)
at_msg_set a (field h d) position m =
    if not (is_nested h.type) || not h.is_array then done (minus_one, field h d, a) else fault

-- cRosMessageFieldArrayAtStringGet: there is no test of the position.
unfoldable pub at_string_get : Field → ℤ → Run (Option Text)
at_string_get (field h (as_string_array ts)) position =
    if not (is_type h.type string_type) || not h.is_array
    then done none
    else index position >>= λ i. text_at i ts
at_string_get (field h d) position =
    if not (is_type h.type string_type) || not h.is_array then done none else fault

-- cRosMessageFieldArrayAtStringSet: the same; where memory is lacking the entry becomes NULL.
unfoldable pub at_string_set : Answers → Field → ℤ → Option Text → Run (ℤ × Field × Answers)
at_string_set a (field h (as_string_array ts)) position none =
    if not (is_type h.type string_type) || not h.is_array
    then done (minus_one, field h (as_string_array ts), a)
    else index position >>= λ i.
        set_text i none ts >>= λ ts'. done (pos 0, field h (as_string_array ts'), a)
at_string_set a (field h (as_string_array ts)) position (some val) =
    if not (is_type h.type string_type) || not h.is_array
    then done (minus_one, field h (as_string_array ts), a)
    else index position >>= λ i. set_text i (if a 0 then some val else none) ts >>= λ ts'.
        done (if a 0 then pos 0 else minus_one, field h (as_string_array ts'), later a)
at_string_set a (field h d) position val =
    if not (is_type h.type string_type) || not h.is_array
    then done (minus_one, field h d, a)
    else fault

abbrev pub clear_texts : ℕ → List (Option Text) → List (Option Text)
clear_texts n ts = replicate n none ++ drop n ts

abbrev pub clear_messages : ℕ → Messages → Messages
clear_messages zero ms = ms
clear_messages (suc n) no_messages = no_messages
clear_messages (suc n) (null_message ms) = null_message (clear_messages n ms)
clear_messages (suc n) (with_message m ms) = null_message (clear_messages n ms)

-- The loop of cRosMessageFieldArrayClear: what is left of the block.
unfoldable pub clear_elements : FieldHead → Kind → Data → Run Data
unfolding message_release
clear_elements h plain d = done d
clear_elements h text (as_string_array ts) = inside h.array_size (length ts) >>= λ u.
    done (as_string_array (clear_texts (count h.array_size) ts))
clear_elements h nested (as_msg_array ms) = release_messages (count h.array_size) ms >>= λ u.
    done (as_msg_array (clear_messages (count h.array_size) ms))
clear_elements h k d = if count h.array_size == 0 then done d else fault

-- cRosMessageFieldArrayClear
unfoldable pub array_clear : Field → Run (ℤ × Field)
array_clear (field h d) =
    if not (is_variable h)
    then done (minus_one, field h d)
    else clear_elements h (kind h.type) d >>= λ d'.
        done (pos 0, field (record h { array_size = pos 0 }) d')

-- arrayFieldValueAt: the offset of the element in the block, or `none` for NULL.
unfoldable pub value_at : FieldHead → ℤ → ℕ → Option ℕ
value_at h (negsuc k) size = none
value_at h (pos i) size =
    if not h.is_array then none else if ltb (count h.array_size) i then none else some (i * size)

-- cRosMessageFieldArrayAtInt8 to cRosMessageFieldArrayAtFloat64, by the type.
unfoldable pub at_of : MessageType → FieldHead → ℤ → Option ℕ
at_of ty h position = if is_type h.type ty then value_at h position (type_size ty) else none

-- cRosMessageFieldSize and cRosMessageSize in `size_t`. The code reads `as_msg` where the field is an
-- array of messages too.
unfoldable mutual
  pub field_size : Field → Run ℕ
  field_size (field h d) = single_size h d (is_builtin_message_type h.type) >>= λ single.
      done (if h.is_array then mul_size single (size_of_int h.array_size) else single)

  pub single_size : FieldHead → Data → Bool → Run ℕ
  single_size h (as_msg m) builtin = if builtin then done (size_of_int h.size) else message_size m
  single_size h d builtin = if builtin then done (size_of_int h.size) else fault

  pub fields_size : Fields → ℕ → Run ℕ
  fields_size no_fields total = done total
  fields_size (null_field fs) total = fault
  fields_size (with_field f fs) total = field_size f >>= λ s. fields_size fs (add_size total s)

  pub message_size : Message → Run ℕ
  message_size (message fs md5 md) = fields_size fs 0
