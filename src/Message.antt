-- ===== src/Message.antt =====
-- src/cros_message.c and include/cros_message.h, the part that copies and frees messages: trees of
-- fields that own their names, texts, arrays and nested messages. A function that asks for memory takes the answers to its requests and
-- returns those that are left; memory that the code leaks on a failure is not followed.
pub mod Copy
pub mod Types
pub mod Serialize
pub mod Arrays
pub mod Elements
pub mod Build
pub mod Deserialize
pub mod Valid
pub mod Copies
pub mod Frees
mod Tests
use cros.Common.{
  Bool, List, Option, [], if◌then◌else◌, leb, length, negsuc, none, pos, some, suc, zero, ℕ, ℤ,
}
use cros.Mem.{Answers, Block, Run, done, fault, later, ◌>>=◌}

abbrev pub Text : Type 0
Text = List ℕ

-- CrosMessageType
pub data MessageType : Type 0 where
  custom_type int8_type uint8_type int16_type uint16_type int32_type uint32_type : MessageType
  int64_type uint64_type float32_type float64_type string_type bool_type time_type : MessageType
  duration_type header_type char_type byte_type : MessageType

-- The three groups of types that the functions tell apart: numbers, texts and nested messages.
pub data Kind : Type 0 where
  plain text nested : Kind

unfoldable pub kind : MessageType → Kind
kind custom_type = nested
kind time_type = nested
kind duration_type = nested
kind header_type = nested
kind string_type = text
kind ty = plain

-- The members of a cRosMessageField but its data; flags are Booleans. An array's size and capacity
-- are not negative.
pub record FieldHead : Type 0 where
  pub name : Option Text
  pub type_s : Option Text
  pub size : ℤ
  pub is_const : Bool
  pub is_array : Bool
  pub is_fixed_array : Bool
  pub array_size : ℤ
  pub array_capacity : ℤ
  pub type : MessageType

-- msgConst
pub record MessageConst : Type 0 where
  pub type : MessageType
  pub type_s : Option Text
  pub name : Option Text
  pub value : Option Text

-- The members of a msgFieldDef but its links and its child.
pub record FieldDefHead : Type 0 where
  pub type : MessageType
  pub type_s : Option Text
  pub name : Option Text
  pub is_array : Bool
  pub array_size : ℤ

-- The members of a cRosMessageDef but its fields. The lists of constants and fields end with a blank
-- entry that stands for nothing, which is left out here.
pub record DefHead : Type 0 where
  pub name : Option Text
  pub package_name : Option Text
  pub root_dir : Option Text
  pub plain_text : Option Text
  pub constants : List MessageConst

-- A cRosMessageDef and the list of its fields, each with or without a `child_msg_def`.
mutual
  pub data MessageDef : Type 0 where
    message_def : DefHead → FieldDefs → MessageDef

  pub data FieldDefs : Type 0 where
    no_defs : FieldDefs
    field_def : FieldDefHead → FieldDefs → FieldDefs
    child_def : FieldDefHead → MessageDef → FieldDefs → FieldDefs

-- `n_fields` is the number of entries of `fields`, and NULL has none. The MD5 text comes with the
-- size of its block. In the union a NULL pointer is `as_string none`, `no_msg` or `null_array`.
mutual
  pub data Message : Type 0 where
    message : Fields → Option (ℕ × Text) → Option MessageDef → Message

  pub data Fields : Type 0 where
    no_fields : Fields
    null_field : Fields → Fields
    with_field : Field → Fields → Fields

  pub data Field : Type 0 where
    field : FieldHead → Data → Field

  pub data Data : Type 0 where
    opaque : List ℕ → Data
    as_string : Option Text → Data
    no_msg null_array : Data
    as_msg : Message → Data
    as_array : Block → Data
    as_string_array : List (Option Text) → Data
    as_msg_array : Messages → Data

  pub data Messages : Type 0 where
    no_messages : Messages
    null_message : Messages → Messages
    with_message : Message → Messages → Messages

abbrev pub fields_of : Message → Fields
fields_of (message fs md5 md) = fs

abbrev pub md5_of : Message → Option (ℕ × Text)
md5_of (message fs md5 md) = md5

abbrev pub def_of : Message → Option MessageDef
def_of (message fs md5 md) = md

-- Whether the first n entries of an array of pointers lie in its block.
abbrev pub inside : ℤ → ℕ → Run (Unit {0})
inside (pos n) len = if leb n len then done tt else fault
inside (negsuc k) len = done tt

-- cRosMessageFieldRelease and cRosMessageFree: each block is freed once, and only a loop that leaves
-- its array goes wrong. The structs themselves are freed by the caller.
unfoldable mutual
  pub field_release : Field → Run (Unit {0})
  field_release (field h d) =
      if h.is_array
      then release_array (kind h.type) h.array_size d
      else release_single (kind h.type) d

  pub release_single : Kind → Data → Run (Unit {0})
  release_single plain d = done tt
  release_single text (as_string t) = done tt
  release_single text d = fault
  release_single nested no_msg = done tt
  release_single nested (as_msg m) = message_release m
  release_single nested d = fault

  pub release_array : Kind → ℤ → Data → Run (Unit {0})
  release_array plain n d = done tt
  release_array text n (as_string_array ts) = inside n (length ts)
  release_array text (pos (suc n)) null_array = fault
  release_array text n null_array = done tt
  release_array text n d = fault
  release_array nested (pos n) (as_msg_array ms) = release_messages n ms
  release_array nested (negsuc k) (as_msg_array ms) = done tt
  release_array nested (pos (suc n)) null_array = fault
  release_array nested n null_array = done tt
  release_array nested n d = fault

  pub release_messages : ℕ → Messages → Run (Unit {0})
  release_messages zero ms = done tt
  release_messages (suc n) no_messages = fault
  release_messages (suc n) (null_message ms) = release_messages n ms
  release_messages (suc n) (with_message m ms) = message_release m >>= λ u. release_messages n ms

  -- cRosMessageFieldsFree on the list of fields.
  pub free_fields : Fields → Run (Unit {0})
  free_fields no_fields = done tt
  free_fields (null_field fs) = free_fields fs
  free_fields (with_field f fs) = field_release f >>= λ u. free_fields fs

  pub message_release : Message → Run (Unit {0})
  message_release (message fs md5 md) = free_fields fs

-- cRosMessageFieldsFree: the MD5 text stays.
unfoldable pub fields_free : Message → Run Message
fields_free (message fs md5 md) = free_fields fs >>= λ u. done (message no_fields md5 md)

-- cRosMessageRelease
unfoldable pub release : Message → Run Message
release (message fs md5 md) = free_fields fs >>= λ u. done (message no_fields none none)

-- cRosMessageInit: the block for the MD5 text has 33 zero bytes, or is NULL.
unfoldable pub init : Answers → Message × Answers
init a =
    (if a 0 then message no_fields (some (33, [])) none else message no_fields none none, later a)

-- cRosMessageNew; `none` is NULL.
unfoldable pub new_message : Answers → Option Message × Answers
new_message a =
    if a 0
    then if a 1
      then (some (message no_fields (some (33, [])) none), later (later a))
      else (none, later (later a))
    else (none, later a)
