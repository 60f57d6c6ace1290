-- ===== src/Message/Tests.antt =====
-- Copying a message with a text array and a nested message.
use cros.Common.{
  Bool, Option, [], arith, false, minus_one, none, pos, refl, some, true, ℕ, ℤ, ◌∷◌, ◌≡◌,
}
use cros.Common.Decimal.{chars}
use cros.Mem.{done, plenty}
use cros.Message.{
  Field, FieldHead, Fields, Message, MessageType, Text, as_array, as_msg, as_string_array,
  custom_type, def_of, field, fields_free, free_fields, kind, md5_of, message, no_fields, no_msg,
  string_type, uint8_type, with_field,
}
use cros.Message.Copy.{copy_head, copy_without_def, field_copy, fields_copy}
use cros.Message.Valid.{AreFields, IsField, IsMessage, tidy, tidy_fields}
use cros.Message.Copies.{copy_without_def-plenty, fields_copy-plenty, new_md5}
use cros.Message.Frees.{copy-free}

abbrev head_of : MessageType → Bool → ℤ → ℤ → FieldHead
head_of ty arr n room = record {
  name = some (chars "f");
  type_s = none;
  size = pos 1;
  is_const = false;
  is_array = arr;
  is_fixed_array = false;
  array_size = n;
  array_capacity = room;
  type = ty;
}

abbrev digest : Option (ℕ × Text)
digest = some (33, chars "0123456789abcdef0123456789abcdef")

-- Two texts in an array for three, the second NULL.
abbrev texts_field : Field
texts_field =
    field (head_of string_type true (pos 2) (pos 3))
      (as_string_array (some (chars "a") ∷ none ∷ some (chars "left over") ∷ []))

abbrev inner : Message
inner = message (with_field texts_field no_fields) digest none

abbrev outer_fields : Fields
outer_fields = with_field (field (head_of custom_type false minus_one minus_one) (as_msg inner)) (
    with_field (field (head_of uint8_type true (pos 1) (pos 2)) (as_array (some 7 ∷ none ∷ [])))
      no_fields)

texts_field-IsField : IsField texts_field
texts_field-IsField = ((unfold kind in refl, refl), (omega arith, omega arith, tt))

inner-IsMessage : IsMessage inner
inner-IsMessage = ((texts_field-IsField, tt), omega arith)

outer-AreFields : AreFields outer_fields
outer-AreFields = (
  ((unfold kind in refl, refl), inner-IsMessage),
  (((unfold kind in refl, refl), (1, refl, omega arith, omega arith, omega arith, tt, tt)), tt),
)

fields_copy-plenty_example :
    fields_copy plenty (message no_fields (some (33, [])) none) (message outer_fields digest none)
    ≡ done (pos 0, message (tidy_fields outer_fields) (new_md5 (some (33, [])) digest) none, plenty)
fields_copy-plenty_example =
    fields_copy-plenty (message no_fields (some (33, [])) none) outer_fields digest none
      outer-AreFields (omega arith) (unfold free_fields in refl)

copy_without_def-plenty_example : copy_without_def plenty inner ≡ done (some (tidy inner), plenty)
copy_without_def-plenty_example = copy_without_def-plenty inner inner-IsMessage

copy-free_example :
    (c : Message) × (copy_without_def plenty inner ≡ done (some c, plenty))
    × IsMessage c
    × (fields_free inner ≡ done (message no_fields (md5_of inner) (def_of inner)))
    × (fields_free c ≡ done (message no_fields (md5_of c) (def_of c)))
copy-free_example = copy-free inner inner-IsMessage

-- NULL in the place of a nested message makes the copy fail.
null_message_fails :
    field_copy plenty (field (head_of custom_type false minus_one minus_one) no_msg)
    ≡ done (none, plenty)
unfolding field_copy copy_head kind
null_message_fails = refl
