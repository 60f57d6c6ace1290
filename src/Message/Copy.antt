-- ===== src/Message/Copy.antt =====
-- cRosMessageFieldCopy, cRosMessageFieldsCopy and cRosMessageCopyWithoutDef.
use cros.Common.{
  Bool, List, Option, [], false, if◌then◌else◌, leb, length, ltb, minus_one, negsuc, none, not, pos,
  replicate, some, suc, true, zero, ℕ, ℤ, ◌&&◌, ◌*◌, ◌++◌, ◌+◌, ◌-◌, ◌==◌, ◌∷◌,
}
use cros.Mem.{Answers, Block, Run, done, fault, int, later, read, write_cells, ◌>>=◌}
use cros.Message.{
  Data, Field, FieldHead, Fields, Message, Messages, Text, as_array, as_msg, as_msg_array,
  as_string, as_string_array, def_of, field, fields_of, free_fields, kind, md5_of, message, nested,
  no_fields, no_messages, no_msg, null_array, null_field, null_message, opaque, plain, text,
  with_field, with_message,
}

-- strdup of a text or NULL: the copy, or that memory was lacking.
abbrev pub copy_text : Answers → Option Text → Option (Option Text) × Answers
copy_text a none = (some none, a)
copy_text a (some t) = if a 0 then (some (some t), later a) else (none, later a)

-- The members of the new field: both texts are copied before either is checked.
abbrev pub both_copied :
    FieldHead → Option (Option Text) → Option (Option Text) × Answers → Option FieldHead × Answers
both_copied h (some s) (some t, a) = (some (record h { type_s = s; name = t }), a)
both_copied h none (t, a) = (none, a)
both_copied h (some s) (none, a) = (none, a)

unfoldable pub copy_head : Answers → FieldHead → Option FieldHead × Answers
copy_head a h =
    both_copied h ((copy_text a h.type_s).0) (copy_text ((copy_text a h.type_s).1) h.name)

-- The loop over the first n texts of an array.
unfoldable pub copy_texts :
    Answers → ℕ → List (Option Text) → Run (Option (List (Option Text)) × Answers)
copy_texts a zero ts = done (some [], a)
copy_texts a (suc n) [] = fault
copy_texts a (suc n) (t ∷ ts) = elim ((copy_text a t).0) [
  | none ↦ done (none, (copy_text a t).1)
  | some t' ↦ copy_texts ((copy_text a t).1) n ts >>= λ r. elim (r.0) [
    | none ↦ done (none, r.1)
    | some ts' ↦ done (some (t' ∷ ts'), r.1)
  ]
]

-- The new array has `room` entries, the first n of them written and the others NULL.
abbrev pub texts_in : ℕ → ℕ → Option (List (Option Text)) × Answers → Run (Option Data × Answers)
texts_in room n (none, a) = done (none, a)
texts_in room n (some ts, a) =
    if leb n room then done (some (as_string_array (ts ++ replicate (room - n) none)), a) else fault

abbrev pub pad : ℕ → Messages
pad zero = no_messages
pad (suc n) = null_message (pad n)

abbrev pub join : Messages → ℕ → Messages
join no_messages k = pad k
join (null_message ms) k = null_message (join ms k)
join (with_message m ms) k = with_message m (join ms k)

abbrev pub messages_in : ℕ → ℕ → Option Messages × Answers → Run (Option Data × Answers)
messages_in room n (none, a) = done (none, a)
messages_in room n (some ms, a) =
    if leb n room then done (some (as_msg_array (join ms (room - n))), a) else fault

-- memcpy of n elements of `size` bytes, a product of two `int`s, into a block of zeros for `room`
-- elements. A negative product is converted to a number of bytes that no block has.
unfoldable pub copy_bytes : ℤ → ℕ → ℤ → Block → Run Block
copy_bytes (pos size) room (pos n) blk = int (size * n) >>= λ total.
    read blk 0 total >>= λ cells. write_cells (replicate (room * size) (some 0)) 0 cells
copy_bytes (pos size) room (negsuc k) blk = if size == 0 then done [] else fault
copy_bytes (negsuc k) room n blk = fault

-- The MD5 text of the destination after the copy, or that memory was lacking: strcpy into the block
-- that is there, strdup where there is none.
unfoldable pub copy_md5 :
    Answers → Option (ℕ × Text) → Option (ℕ × Text) → Run (Option (Option (ℕ × Text)) × Answers)
copy_md5 a dst none = done (some none, a)
copy_md5 a (some (size, old)) (some (k, t)) =
    if ltb (length t) size then done (some (some (size, t)), a) else fault
copy_md5 a none (some (k, t)) =
    done (if a 0 then (some (some (length t + 1, t)), later a) else (none, later a))

abbrev pub count : ℤ → ℕ
count (pos n) = n
count (negsuc k) = 0

-- cRosMessageFieldsCopy: the loop over the source's fields, the destination, and the source's MD5
-- text.
unfoldable pub fields_copy_with :
    (Answers → Run (Bool × Fields × Answers))
    → Answers
    → Message
    → Option (ℕ × Text)
    → Run (ℤ × Message × Answers)
unfolding copy_md5 free_fields
fields_copy_with loop a dst md5 = copy_md5 a (md5_of dst) md5 >>= λ c. elim (c.0) [
  | none ↦ done (minus_one, dst, c.1)
  | some md5' ↦ free_fields (fields_of dst) >>= λ u. elim (c.1 0) [
    | false ↦ done (minus_one, message no_fields md5' (def_of dst), later (c.1))
    | true ↦ loop (later (c.1)) >>= λ r. elim (r.0) [
      | true ↦ done (pos 0, message (r.1) md5' (def_of dst), r.2)
      | false ↦
          free_fields (r.1) >>= λ v. done (minus_one, message no_fields md5' (def_of dst), r.2)
    ]
  ]
]

-- The copies of a single value and of an array. calloc for a negative number of elements is a request
-- that is never met: the answers are those of the code that runs, and the model does not look at
-- the sign. `none` is the result -1: the new field then holds
-- pointers to freed memory, and the caller frees the struct and nothing else.
unfoldable mutual
  pub field_copy : Answers → Field → Run (Option Field × Answers)
  field_copy a (field h d) = elim ((copy_head a h).0) [
    | none ↦ done (none, (copy_head a h).1)
    | some h' ↦ copy_data ((copy_head a h).1) h d >>= λ r. elim (r.0) [
      | none ↦ done (none, r.1)
      | some d' ↦ done (some (field h' d'), r.1)
    ]
  ]

  pub copy_data : Answers → FieldHead → Data → Run (Option Data × Answers)
  copy_data a h (opaque bytes) = elim (kind h.type) [
    | plain ↦ if h.is_array then fault else done (some (opaque bytes), a)
    | _ ↦ fault
  ]
  copy_data a h (as_string t) = elim (kind h.type) [
    | text ↦ if h.is_array then fault else (elim ((copy_text a t).0) [
      | none ↦ done (none, (copy_text a t).1)
      | some t' ↦ done (some (as_string t'), (copy_text a t).1)
    ])
    | _ ↦ fault
  ]
  copy_data a h no_msg = elim (kind h.type) [
    | nested ↦ if h.is_array then fault else done (none, a)
    | _ ↦ fault
  ]
  copy_data a h (as_msg m) = elim (kind h.type) [
    | nested ↦
        if h.is_array
        then fault
        else (copy_without_def a m >>= λ r. elim (r.0) [
          | none ↦ done (none, r.1)
          | some m' ↦ done (some (as_msg m'), r.1)
        ])
    | _ ↦ fault
  ]
  copy_data a h null_array = elim (kind h.type) [
    | plain ↦ fault
    | text ↦
        if h.is_array && count h.array_size == 0
        then done (
            if a 0
            then (some (as_string_array (replicate (count h.array_capacity) none)), later a)
            else (none, later a))
        else fault
    | nested ↦
        if h.is_array && count h.array_size == 0
        then done (
            if a 0
            then (some (as_msg_array (pad (count h.array_capacity))), later a)
            else (none, later a))
        else fault
  ]
  copy_data a h (as_array blk) = elim (kind h.type) [
    | plain ↦ if not h.is_array then fault else (elim (a 0) [
      | true ↦ copy_bytes h.size (count h.array_capacity) h.array_size blk >>= λ blk'.
          done (some (as_array blk'), later a)
      | false ↦ done (none, later a)
    ])
    | _ ↦ fault
  ]
  copy_data a h (as_string_array ts) = elim (kind h.type) [
    | text ↦ if not h.is_array then fault else (elim (a 0) [
      | true ↦ copy_texts (later a) (count h.array_size) ts >>= λ r.
          texts_in (count h.array_capacity) (count h.array_size) r
      | false ↦ done (none, later a)
    ])
    | _ ↦ fault
  ]
  copy_data a h (as_msg_array ms) = elim (kind h.type) [
    | nested ↦ if not h.is_array then fault else (elim (a 0) [
      | true ↦ copy_messages (later a) (count h.array_size) ms >>= λ r.
          messages_in (count h.array_capacity) (count h.array_size) r
      | false ↦ done (none, later a)
    ])
    | _ ↦ fault
  ]

  pub copy_messages : Answers → ℕ → Messages → Run (Option Messages × Answers)
  copy_messages a zero ms = done (some no_messages, a)
  copy_messages a (suc n) no_messages = fault
  copy_messages a (suc n) (null_message ms) = copy_messages a n ms >>= λ r. elim (r.0) [
    | none ↦ done (none, r.1)
    | some ms' ↦ done (some (null_message ms'), r.1)
  ]
  copy_messages a (suc n) (with_message m ms) = copy_without_def a m >>= λ c. elim (c.0) [
    | none ↦ done (none, c.1)
    | some m' ↦ copy_messages (c.1) n ms >>= λ r. elim (r.0) [
      | none ↦ done (none, r.1)
      | some ms' ↦ done (some (with_message m' ms'), r.1)
    ]
  ]

  -- The loop over the fields of the source: the fields copied, and whether all were.
  pub copy_fields : Answers → Fields → Run (Bool × Fields × Answers)
  copy_fields a no_fields = done (true, no_fields, a)
  copy_fields a (null_field fs) = done (false, no_fields, later a)
  copy_fields a (with_field f fs) = elim (a 0) [
    | false ↦ done (false, no_fields, later a)
    | true ↦ field_copy (later a) f >>= λ c. elim (c.0) [
      | none ↦ done (false, no_fields, c.1)
      | some f' ↦ copy_fields (c.1) fs >>= λ r. done (r.0, with_field f' (r.1), r.2)
    ]
  ]

  -- cRosMessageCopyWithoutDef of a message that is not NULL.
  pub copy_without_def : Answers → Message → Run (Option Message × Answers)
  copy_without_def a (message fs md5 md) = elim (a 0) [
    | false ↦ done (none, later a)
    | true ↦ elim (a 1) [
      | false ↦ done (none, later (later a))
      | true ↦
          fields_copy_with (λ b. copy_fields b fs) (later (later a))
            (message no_fields (some (33, [])) none) md5
          >>= λ r. elim (r.0) [
            | pos ok ↦ done (some (r.1), r.2)
            | negsuc e ↦ free_fields (fields_of (r.1)) >>= λ u. done (none, r.2)
          ]
    ]
  ]

-- The destination first, then the source.
unfoldable pub fields_copy : Answers → Message → Message → Run (ℤ × Message × Answers)
unfolding field_copy fields_copy_with
fields_copy a dst (message fs md5 md) = fields_copy_with (λ b. copy_fields b fs) a dst md5
