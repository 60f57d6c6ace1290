-- ===== src/Message/Build.antt =====
-- src/cros_message.c: build_time_field, build_duration_field and build_header_field, the messages of
-- the built-in compound types. A function frees all it has when memory is lacking.
use cros.Common.{
  Option, false, if◌then◌else◌, minus_one, none, not, pos, replicate, some, ℕ, ℤ, ◌&&◌, ◌+◌,
}
use cros.Common.Decimal.{chars}
use cros.Mem.{Answers, later}
use cros.Message.{
  Data, Field, FieldHead, Fields, Message, MessageType, Text, as_msg, as_string, field, int32_type,
  message, new_message, no_fields, no_msg, opaque, string_type, time_type, uint32_type, with_field,
}
use cros.Message.Types.{type_size}

-- A new field with a name and a type; `size` stays -1 where the code does not set it.
abbrev pub new_head : Text → MessageType → ℤ → FieldHead
new_head name ty size = record {
  name = some name;
  type_s = none;
  size = size;
  is_const = false;
  is_array = false;
  is_fixed_array = false;
  array_size = minus_one;
  array_capacity = minus_one;
  type = ty;
}

-- A field that holds a number, zero at first.
abbrev pub number_field : Text → MessageType → Field
number_field name ty = field (new_head name ty (pos (type_size ty))) (opaque (replicate 8 0))

abbrev pub after : ℕ → Answers → Answers
after n a = λ k. a (n + k)

-- The two fields `secs` and `nsecs` of one type: a block for the fields, two fields, two names.
unfoldable pub build_pair : MessageType → Option Message × Answers → Option Message × Answers
build_pair ty (none, a) = (none, a)
build_pair ty (some (message fs md5 md), a) =
    if not (a 0) then (none, after 1 a) else if not (a 1 && a 2) then (none, after 3 a) else (
      if a 3 && a 4
          then some (
              message
                (with_field (number_field (chars "secs") ty)
                  (with_field (number_field (chars "nsecs") ty) no_fields))
                md5 md)
          else none,
      after 5 a,
    )

unfoldable pub build_time_field : Answers → Option Message × Answers
unfolding new_message build_pair
build_time_field a = build_pair uint32_type (new_message a)

unfoldable pub build_duration_field : Answers → Option Message × Answers
unfolding new_message build_pair
build_duration_field a = build_pair int32_type (new_message a)

-- The message that the field `stamp` gets: it is not checked for NULL.
abbrev pub stamp_data : Option Message → Data
stamp_data none = no_msg
stamp_data (some m) = as_msg m

abbrev pub header_fields : Option Message → Fields
header_fields stamp = with_field (number_field (chars "seq") uint32_type) (
    with_field (field (new_head (chars "stamp") time_type minus_one) (stamp_data stamp)) (
      with_field (field (new_head (chars "frame_id") string_type minus_one) (as_string none))
        no_fields))

-- A block for the fields, three fields, two names, the time, the third name.
unfoldable pub build_header_rest : Option Message × Answers → Option Message × Answers
unfolding build_time_field
build_header_rest (none, a) = (none, a)
build_header_rest (some (message fs md5 md), a) =
    if not (a 0)
    then (none, after 1 a)
    else if not (a 1 && a 2 && a 3)
    then (none, after 4 a)
    else (
      if a 4 && a 5 && (build_time_field (after 6 a)).1 0
          then some (message (header_fields ((build_time_field (after 6 a)).0)) md5 md)
          else none,
      later ((build_time_field (after 6 a)).1),
    )

unfoldable pub build_header_field : Answers → Option Message × Answers
unfolding new_message build_header_rest
build_header_field a = build_header_rest (new_message a)
