-- ===== src/Message/Deserialize/Reads.antt =====
-- The values that cRosMessageDeserialize reads out of the buffer: numbers, arrays of numbers and
-- texts.
use cros.Common.{
  List, Option, [], drop, false, if◌then◌else◌, int_of_size, length, ltb, mul_size, negsuc, none,
  not, pos, size_of_int, some, suc, true, zero, ℕ, ℤ, ◌%◌, ◌++◌, ◌+◌, ◌==◌, ◌^◌, ◌∷◌,
}
use cros.DynBuffer.{
  DynBuffer, copy_out, get_current_content, get_remaining_data_size, move_pose_indicator,
}
use cros.DynBuffer.Values.{from_le}
use cros.Mem.{Answers, Run, done, fault, int, later, write, ◌>>=◌}
use cros.Message.{Data, Field, FieldHead, Text, as_array, as_string, field, opaque}
use cros.Message.Types.{type_size}
use cros.Message.Arrays.{block_of, push_back_string, values_push_back}
use cros.Message.Elements.{array_clear, at_string_set}
use cros.Message.Serialize.{array_bytes, mem_alloc_err, push_code, stored}

-- CROS_DEPACK_INSUFF_DAT_ERR and CROS_DEPACK_NO_MSG_DEF_ERR
abbrev pub depack_insuff_dat_err : ℕ
depack_insuff_dat_err = 21

abbrev pub depack_no_msg_def_err : ℕ
depack_no_msg_def_err = 22

-- `ret_err`, the buffer, and whether the requests for memory to come are met.
pub record Input : Type 0 where
  pub code : ℕ
  pub buffer : DynBuffer
  pub answers : Answers

-- dynBufferMovePoseIndicator by a `size_t` or a `uint32_t`, which becomes an `int`.
abbrev pub move : Input → ℕ → Input
move i n = record i { buffer = move_pose_indicator i.buffer (int_of_size n) }

-- dynBufferGetCurrentContent with its result as `ret_err`, then dynBufferMovePoseIndicator; `none`
-- where nothing was copied.
unfoldable pub read_content : Input → ℕ → Run (Option (List ℕ) × Input)
unfolding stored
read_content i n = get_current_content i.buffer n >>= λ r. elim (r.0) [
  | pos k ↦ stored (r.1) >>= λ bytes. done (some bytes, move (record i { code = 0 }) n)
  | negsuc k ↦ done (none, move (record i { code = mem_alloc_err }) n)
]

-- The same for a `uint32_t`.
unfoldable pub read_number : Input → Run (Option ℕ × Input)
read_number i = read_content i 4 >>= λ r. elim (r.0) [
  | none ↦ done (none, r.1)
  | some bytes ↦ done (some (from_le bytes), r.1)
]

-- A single number: the bytes of the union beyond it stay.
unfoldable pub read_opaque : FieldHead → List ℕ → Input → Run (Field × Input)
read_opaque h old i = read_content i (type_size h.type) >>= λ r. elim (r.0) [
  | none ↦ done (field h (opaque old), r.1)
  | some bytes ↦ done (field h (opaque (bytes ++ drop (length bytes) old)), r.1)
]

-- A fixed array of numbers.
unfoldable pub read_fixed : FieldHead → Data → Input → Run (Field × Input)
read_fixed h d i = block_of d >>= λ blk. read_content i (array_bytes h) >>= λ r. elim (r.0) [
  | none ↦ done (field h d, r.1)
  | some bytes ↦ write blk 0 bytes >>= λ blk'. done (field h (as_array blk'), r.1)
]

-- The elements of an array of variable length: the copy into the array is made before the cursor
-- moves. A count above INT_MAX becomes a negative `int`, with which memcpy is undefined.
unfoldable pub read_elements : Field → ℕ → ℕ → Input → Run (Field × Input)
unfolding stored
read_elements f element n i =
    if ltb (get_remaining_data_size i.buffer) (mul_size n element)
    then done (f, record i { code = depack_insuff_dat_err })
    else int n >>= λ m.
        copy_out (i.buffer.block) (i.buffer.pos_offset) (mul_size n element) >>= λ cells.
        stored cells >>= λ bytes. values_push_back i.answers f bytes element n >>= λ r. done (
          r.1,
          move (record { code = push_code (r.0); buffer = i.buffer; answers = r.2 })
              (mul_size n element),
        )

unfoldable pub read_variable : FieldHead → Data → Input → Run (Field × Input)
read_variable h d i = array_clear (field h d) >>= λ c. read_number i >>= λ r. elim (r.0) [
  | none ↦ done (c.1, r.1)
  | some n ↦ read_elements (c.1) (type_size h.type) n (r.1)
]

-- The text that a block of bytes stands for.
abbrev pub until_nul : List ℕ → Text
until_nul [] = []
until_nul (c ∷ cs) = if c == 0 then [] else c ∷ until_nul cs

-- A single text. The length is used whether it was read or not; realloc to no bytes, which the wrap
-- of `curr_data_size + 1` asks for, is undefined; and the result of reading the text is not looked
-- at, so that its bytes may never have been stored. First what follows the length.
unfoldable pub read_text_of : FieldHead → ℕ → Input → Run (Field × Input)
read_text_of h n i =
    if (n + 1) % 2 ^ 32 == 0
    then fault
    else if i.answers 0
    then (read_content i n >>= λ s. elim (s.0) [
      | none ↦ fault
      | some bytes ↦ done (
        field h (as_string (some (until_nul bytes))),
        record (s.1) { code = i.code; answers = later ((s.1).answers) },
      )
    ])
    else done
        (field h (as_string none), record i { code = mem_alloc_err; answers = later i.answers })

unfoldable pub read_text : FieldHead → Input → Run (Field × Input)
read_text h i = read_number i >>= λ r. elim (r.0) [ none ↦ fault | some n ↦ read_text_of h n (r.1) ]

-- The text that was read into a block of zeros.
abbrev pub text_or_empty : Option (List ℕ) → Text
text_or_empty none = []
text_or_empty (some bytes) = until_nul bytes

-- The call that stores an element of an array of texts.
unfoldable pub store_text : Answers → Field → ℕ → Text → Run (ℤ × Field × Answers)
store_text a (field h d) i t =
    if h.is_fixed_array
    then at_string_set a (field h d) (pos i) (some t)
    else push_back_string a (field h d) (some t)

-- An element of an array of texts: `ret_err` of the read is replaced by the result of storing it.
-- `element_size + 1` wraps at 2 ^ 32.
unfoldable pub read_element : ℕ → ℕ → Field → Input → Run (Field × Input)
read_element k n f i =
    if (n + 1) % 2 ^ 32 == 0
    then fault
    else if not (i.answers 0)
    then done (f, record i { code = mem_alloc_err; answers = later i.answers })
    else read_content i n >>= λ r. store_text (later i.answers) f k (text_or_empty (r.0)) >>= λ s.
        done (s.1, record (r.1) { code = push_code (s.0); answers = s.2 })

-- The loop over n elements from index k on.
unfoldable pub read_texts : ℕ → ℕ → Field → Input → Run (Field × Input)
read_texts zero k f i = done (f, i)
read_texts (suc n) k f i = elim (i.code == 0) [
  | false ↦ done (f, i)
  | true ↦ read_number i >>= λ r. elim (r.0) [
    | none ↦ done (f, r.1)
    | some size ↦ read_element k size f (r.1) >>= λ s. read_texts n (suc k) (s.0) (s.1)
  ]
]

-- `field->array_size` as a `uint32_t`.
abbrev pub as_uint32 : ℤ → ℕ
as_uint32 z = size_of_int z % 2 ^ 32

-- An array of texts.
unfoldable pub read_text_array : FieldHead → Data → Input → Run (Field × Input)
read_text_array h d i =
    if h.is_fixed_array
    then read_texts (as_uint32 h.array_size) 0 (field h d) i
    else array_clear (field h d) >>= λ c. read_number i >>= λ r. elim (r.0) [
      | none ↦ done (c.1, r.1)
      | some n ↦ read_texts n 0 (c.1) (r.1)
    ]
