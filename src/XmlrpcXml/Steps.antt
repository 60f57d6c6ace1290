-- ===== src/XmlrpcXml/Steps.antt =====
-- The values that survive writing and reading, the text that stands for them, and what the parser
-- leaves of one.
use cros.Common.{
  [], arith, if◌then◌else◌, int_max, length, length-append, minus_one, pos, refl, some, suc, zero,
  ℕ, ℤ, ◌*◌, ◌++◌, ◌+◌, ◌<◌, ◌==◌, ◌^◌, ◌∷◌, ◌≡◌, ◌≢◌, ◌≤◌,
}
use cros.Common.Decimal.{chars}
use cros.Common.Scan.{IsPlain}
use cros.Mem.{nil_ptr, owned}
use cros.XmlrpcParams.{
  Content, Param, ParamType, Params, Text, array, array_init_size, as_array, as_bool, as_int,
  as_string, boolean, cons, integer, no_params, param, params_length, string, struct,
}
use cros.XmlrpcParams.Pushes.{next_room}
use cros.XmlrpcParams.Valid.{IsRoom}
use cros.XmlrpcXml.{
  array_etag, array_tag, boolean_etag, boolean_tag, data_etag, data_tag, int_etag, int_tag,
  member_etag, member_tag, name_etag, name_tag, string_etag, string_tag, struct_etag, struct_tag,
  value_etag, value_tag,
}
use cros.XmlrpcXml.Numbers.{IsInt, print_int}

-- No character that the writer replaces.
abbrev pub IsClean : Text → Type 0
IsClean [] = Unit {0}
IsClean (c ∷ cs) = (c ≢ b'<') × (c ≢ b'>') × (c ≢ b'&') × (c ≢ 39) × (c ≢ 34) × IsClean cs

-- So many elements that the capacity of their array, doubled, is in the range of `int`.
abbrev pub max_elems : ℕ
max_elems = 2 ^ 28

-- Booleans of 0 or 1, ints, clean strings, arrays of values without names and structs of values
-- with plain names.
abbrev mutual
  pub IsElem : Param → Type 0
  IsElem (param ty nil_ptr c n mx) = IsValue ty c n
  IsElem (param ty m c n mx) = ⊥

  pub IsMember : Param → Type 0
  IsMember (param ty (owned name) c n mx) = IsPlain name × IsValue ty c n
  IsMember (param ty m c n mx) = ⊥

  pub IsValue : ParamType → Content → ℤ → Type 0
  IsValue boolean (as_bool b) n = b ≤ 1
  IsValue integer (as_int v) n = IsInt v
  IsValue string (as_string (some t)) n = IsClean t × (length t < int_max)
  IsValue array (as_array room ps) n =
      (n ≡ pos (params_length ps)) × (params_length ps ≤ max_elems) × AreElems ps
  IsValue struct (as_array room ps) n =
      (n ≡ pos (params_length ps)) × (params_length ps ≤ max_elems) × AreMembers ps
  IsValue ty c n = ⊥

  pub AreElems : Params → Type 0
  AreElems no_params = Unit {0}
  AreElems (cons p ps) = IsElem p × AreElems ps

  pub AreMembers : Params → Type 0
  AreMembers no_params = Unit {0}
  AreMembers (cons p ps) = IsMember p × AreMembers ps

-- The capacity after so many pushes into a new array.
unfoldable pub room_after : ℕ → ℕ
room_after zero = array_init_size
room_after (suc k) = next_room k (room_after k)

-- What reading leaves: the same types, values, names and order, the counts of a new parameter for a
-- scalar, and the capacities that pushing the elements one by one leads to.
abbrev mutual
  pub reread : Param → Param
  reread (param ty m (as_array room ps) n mx) =
      param ty m (as_array (room_after (params_length ps)) (reread_all ps)) (pos (params_length ps))
        (pos (room_after (params_length ps)))
  reread (param ty m c n mx) = param ty m c minus_one minus_one

  pub reread_all : Params → Params
  reread_all no_params = no_params
  reread_all (cons p ps) = cons (reread p) (reread_all ps)

-- The text of a value, before `rest`.
abbrev mutual
  pub xml : Param → Text → Text
  xml (param ty (owned name) c n mx) rest =
      member_tag
      ++ (name_tag
          ++ (name
              ++ (name_etag
                  ++ (value_tag ++ inner_xml ty c (value_etag ++ (member_etag ++ rest))))))
  xml (param ty m c n mx) rest = value_tag ++ inner_xml ty c (value_etag ++ rest)

  pub inner_xml : ParamType → Content → Text → Text
  inner_xml boolean (as_bool b) rest =
      boolean_tag ++ ((if b == 0 then chars "0" else chars "1") ++ (boolean_etag ++ rest))
  inner_xml integer (as_int v) rest = int_tag ++ (print_int v ++ (int_etag ++ rest))
  inner_xml string (as_string (some t)) rest = string_tag ++ (t ++ (string_etag ++ rest))
  inner_xml array (as_array room ps) rest =
      array_tag ++ (data_tag ++ xml_all ps (data_etag ++ (array_etag ++ rest)))
  inner_xml struct (as_array room ps) rest = struct_tag ++ xml_all ps (struct_etag ++ rest)
  inner_xml ty c rest = rest

  pub xml_all : Params → Text → Text
  xml_all no_params rest = rest
  xml_all (cons p ps) rest = xml p (xml_all ps rest)

-- Enough rounds to read a value.
abbrev mutual
  pub cost : Param → ℕ
  cost (param ty m c n mx) = 3 + inner_cost ty c

  pub inner_cost : ParamType → Content → ℕ
  inner_cost array (as_array room ps) = 4 + cost_all ps
  inner_cost struct (as_array room ps) = 4 + cost_all ps
  inner_cost ty c = 2

  pub cost_all : Params → ℕ
  cost_all no_params = 2
  cost_all (cons p ps) = suc (cost p + cost_all ps)

room_after-bounds : (k : ℕ) → (k ≤ room_after k) × (0 < room_after k) × (room_after k ≤ 2 * k + 4)
unfolding room_after
room_after-bounds zero = omega arith
room_after-bounds (suc k) = ground (arith, room_after-bounds k)

pub IsRoom-room_after :
    (ps : Params) (k : ℕ)
    → k ≡ params_length ps
    → k ≤ max_elems
    → IsRoom (room_after k) (params_length ps) (pos k) (pos (room_after k))
      × (2 * room_after k ≤ int_max)
IsRoom-room_after ps k e small =
    let h = room_after-bounds k in ((e, h.0, refl, h.1), omega (arith, h.2))

pub IsClean-IsPlain : (t : Text) → IsClean t → IsPlain t
IsClean-IsPlain [] h = tt
IsClean-IsPlain (c ∷ cs) h = (h.0, IsClean-IsPlain cs (h.5))

-- The text is long enough for the rounds.
mutual
  cost_of_xml : (p : Param) (rest : Text) → cost p + 1 + length rest ≤ length (xml p rest)
  cost_of_xml (param ty (owned name) c n mx) rest = omega (
    arith,
    length-append {0} name
        (name_etag ++ (value_tag ++ inner_xml ty c (value_etag ++ (member_etag ++ rest)))),
    cost_of_inner_xml ty c (value_etag ++ (member_etag ++ rest)),
  )
  cost_of_xml (param ty m c n mx) rest = omega (arith, cost_of_inner_xml ty c (value_etag ++ rest))

  cost_of_inner_xml :
      (ty : ParamType) (c : Content) (rest : Text)
      → inner_cost ty c + length rest ≤ length (inner_xml ty c rest) + 2
  cost_of_inner_xml boolean (as_bool b) rest =
      omega
        (arith, length-append {0} (if b == 0 then chars "0" else chars "1") (boolean_etag ++ rest))
  cost_of_inner_xml integer (as_int v) rest =
      omega (arith, length-append {0} (print_int v) (int_etag ++ rest))
  cost_of_inner_xml string (as_string (some t)) rest =
      omega (arith, length-append {0} t (string_etag ++ rest))
  cost_of_inner_xml array (as_array room ps) rest =
      omega (arith, cost_all_of_xml ps (data_etag ++ (array_etag ++ rest)))
  cost_of_inner_xml struct (as_array room ps) rest =
      omega (arith, cost_all_of_xml ps (struct_etag ++ rest))
  cost_of_inner_xml ty c rest = omega arith

  cost_all_of_xml :
      (ps : Params) (rest : Text) → cost_all ps + length rest ≤ length (xml_all ps rest) + 2
  cost_all_of_xml no_params rest = omega arith
  cost_all_of_xml (cons p ps) rest =
      omega (arith, cost_of_xml p (xml_all ps rest), cost_all_of_xml ps rest)

pub cost-xml : (p : Param) (rest : Text) → cost p + 1 + length rest ≤ length (xml p rest)
cost-xml p rest = cost_of_xml p rest

pub two-le-cost_all : (ps : Params) → 2 ≤ cost_all ps
two-le-cost_all no_params = omega arith
two-le-cost_all (cons p ps) = omega (arith, two-le-cost_all ps)

pub two-le-inner_cost : (ty : ParamType) (c : Content) → 2 ≤ inner_cost ty c
two-le-inner_cost array (as_array room ps) = omega arith
two-le-inner_cost struct (as_array room ps) = omega arith
two-le-inner_cost ty c = omega arith
