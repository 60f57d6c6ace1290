-- ===== src/Message/Deserialize.antt =====
-- src/cros_message.c: cRosMessageDeserialize, which reads the fields of a message at the cursor of a
-- byte buffer. A value that the code uses although reading it failed counts as undefined. The
-- recursion runs on the depth of nested messages.
pub mod Reads
pub mod Cursor
pub mod Numbers
pub mod NumberArrays
pub mod Texts
pub mod TextLoop
pub mod TextArrays
pub mod TextFields
pub mod Matches
pub mod Shapes
pub mod Leaves
pub mod TextLeaves
pub mod Nested
pub mod Trees
pub mod RoundTrip
mod Tests
use cros.Common.{
  Option, false, if◌then◌else◌, int_max, leb, none, some, suc, true, zero, ℕ, ◌-◌, ◌==◌,
}
use cros.Mem.{Answers, Run, done, fault, no_fuel, ◌>>=◌}
use cros.Message.{
  Data, Field, FieldDefs, FieldHead, Fields, Kind, Message, MessageDef, MessageType, Messages,
  as_msg, as_msg_array, as_string, child_def, duration_type, field, field_def, header_type, kind,
  message, message_def, nested, no_defs, no_fields, no_messages, null_array, null_field,
  null_message, opaque, plain, text, time_type, with_field, with_message,
}
use cros.Message.Copy.{count}
use cros.Message.Arrays.{push_back_msg}
use cros.Message.Elements.{free_message, remove_last_msg}
use cros.Message.Build.{build_duration_field, build_header_field, build_time_field}
use cros.Message.Serialize.{mem_alloc_err}
use cros.Message.Deserialize.Reads.{
  Input, depack_no_msg_def_err, read_fixed, read_number, read_opaque, read_text, read_text_array,
  read_variable,
}

-- The place in the list of field definitions: `none` is NULL, and the empty list is the blank entry
-- at the end.
abbrev pub Place : Type 0
Place = Option FieldDefs

abbrev pub first_place : Option MessageDef → Place
first_place none = none
first_place (some (message_def h defs)) = some defs

abbrev pub next_place : Place → Place
next_place none = none
next_place (some no_defs) = none
next_place (some (field_def h defs)) = some defs
next_place (some (child_def h md defs)) = some defs

-- cRosMessageBuildFromDef: the error pack, the message if there is one, and the answers left.
abbrev pub Builder : Type 0
Builder = Answers → MessageDef → Run (ℕ × Option Message × Answers)

-- A new message of a built-in type, or CROS_MEM_ALLOC_ERR.
abbrev pub built_in : Input → Option Message × Answers → Option Message × Input
built_in i (none, a) = (none, record i { code = mem_alloc_err; answers = a })
built_in i (some m, a) = (some m, record i { answers = a })

-- The loop over n nested messages of a block: each is read by `rec`.
unfoldable pub read_each :
    (Message → Input → Run (Message × Input)) → ℕ → Messages → Input → Run (Messages × Input)
read_each rec zero ms i = done (ms, i)
read_each rec (suc n) no_messages i = elim (i.code == 0) [
  | true ↦ fault
  | false ↦ done (no_messages, i)
]
read_each rec (suc n) (null_message ms) i = elim (i.code == 0) [
  | true ↦ fault
  | false ↦ done (null_message ms, i)
]
read_each rec (suc n) (with_message m ms) i = elim (i.code == 0) [
  | true ↦ rec m i >>= λ r. read_each rec n ms (r.1) >>= λ s. done (with_message (r.0) (s.0), s.1)
  | false ↦ done (with_message m ms, i)
]

-- The loop that removes and frees the last message n times.
unfoldable pub shrink : ℕ → Field → Run Field
unfolding free_message
shrink zero f = done f
shrink (suc n) f = remove_last_msg f >>= λ r. free_message (r.0) >>= λ u. shrink n (r.1)

-- `while(field->array_size > (int)received_arr_siz)`: below a negative number it never ends.
unfoldable pub shrink_to : ℕ → Field → Run Field
shrink_to n (field h d) =
    if leb n int_max then shrink (count h.array_size - n) (field h d) else no_fuel

-- The array of nested messages after its length was adapted.
unfoldable pub read_messages :
    (Message → Input → Run (Message × Input)) → Field → Input → Run (Field × Input)
read_messages rec (field h (as_msg_array ms)) i =
    read_each rec (count h.array_size) ms i >>= λ r. done (field h (as_msg_array (r.0)), r.1)
read_messages rec (field h null_array) i =
    read_each rec (count h.array_size) no_messages i >>= λ r. done (field h null_array, r.1)
read_messages rec (field h d) i = fault

module _ (build : Builder) where
  -- A new element for an array of nested messages, by the type of the field.
  unfoldable pub build_element : MessageType → Place → Input → Run (Option Message × Input)
  build_element time_type place i = done (built_in i (build_time_field i.answers))
  build_element duration_type place i = done (built_in i (build_duration_field i.answers))
  build_element header_type place i = done (built_in i (build_header_field i.answers))
  build_element ty none i = done (none, record i { code = depack_no_msg_def_err })
  build_element ty (some no_defs) i = fault
  build_element ty (some (field_def h defs)) i = fault
  build_element ty (some (child_def h md defs)) i =
      build i.answers md >>= λ r. done (r.1, record i { code = r.0; answers = r.2 })

  -- The loop that appends n new messages; whether the array took one is not looked at.
  unfoldable pub grow_messages : ℕ → MessageType → Place → Field → Input → Run (Field × Input)
  grow_messages zero ty place f i = done (f, i)
  grow_messages (suc n) ty place f i = elim (i.code == 0) [
    | false ↦ done (f, i)
    | true ↦ build_element ty place i >>= λ r. elim (r.0) [
      | none ↦
          grow_messages n ty place f
            (record (r.1) { code = if (r.1).code == 0 then mem_alloc_err else (r.1).code })
      | some m ↦ push_back_msg (r.1).answers f m >>= λ p.
          grow_messages n ty place (p.1) (record (r.1) { answers = p.2 })
    ]
  ]

  -- An array of nested messages of variable length: its length is used whether it was read or not.
  unfoldable pub adapt_length : Place → Field → Input → Run (Field × Input)
  adapt_length place (field h d) i = read_number i >>= λ r. elim (r.0) [
    | none ↦ fault
    | some n ↦ grow_messages (n - count h.array_size) h.type place (field h d) (r.1) >>= λ g.
        shrink_to n (g.0) >>= λ f. done (f, g.1)
  ]

  module _ (rec : Message → Input → Run (Message × Input)) where
    unfoldable pub read_single : FieldHead → Kind → Data → Input → Run (Field × Input)
    read_single h plain (opaque old) i = read_opaque h old i
    read_single h text (as_string t) i = read_text h i
    read_single h nested (as_msg m) i = rec m i >>= λ r. done (field h (as_msg (r.0)), r.1)
    read_single h k d i = fault

    unfoldable pub read_array : Place → FieldHead → Kind → Data → Input → Run (Field × Input)
    read_array place h plain d i =
        if h.is_fixed_array then read_fixed h d i else read_variable h d i
    read_array place h text d i = read_text_array h d i
    read_array place h nested d i =
        if h.is_fixed_array
        then read_messages rec (field h d) i
        else adapt_length place (field h d) i >>= λ r. read_messages rec (r.0) (r.1)

    unfoldable pub read_field : Place → Field → Input → Run (Field × Input)
    read_field place (field h d) i = elim (h.is_array) [
      | true ↦ read_array place h (kind h.type) d i
      | false ↦ read_single h (kind h.type) d i
    ]

    -- The loop over the fields.
    unfoldable pub read_fields : Place → Fields → Input → Run (Fields × Input)
    read_fields place no_fields i = done (no_fields, i)
    read_fields place (null_field fs) i = elim (i.code == 0) [
      | true ↦ fault
      | false ↦ done (null_field fs, i)
    ]
    read_fields place (with_field f fs) i = elim (i.code == 0) [
      | true ↦ read_field place f i >>= λ r.
          read_fields (next_place place) fs (r.1) >>= λ s. done (with_field (r.0) (s.0), s.1)
      | false ↦ done (with_field f fs, i)
    ]

  -- cRosMessageDeserialize on messages that nest less deep than the fuel.
  unfoldable pub deserialize : ℕ → Message → Input → Run (Message × Input)
  deserialize zero m i = no_fuel
  deserialize (suc n) (message fs md5 md) i =
      read_fields (λ m j. deserialize n m j) (first_place md) fs (record i { code = 0 }) >>= λ r.
      done (message (r.0) md5 md, r.1)
