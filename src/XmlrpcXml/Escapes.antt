-- ===== src/XmlrpcXml/Escapes.antt =====
-- What xmlrpcParamSetStringN (src/xmlrpc_params.c) stores of a text in which stringToXml has replaced
-- the special characters.
use cros.Common.{
  ==_iff, Bool-cases, [], ap, arith, false, if◌then◌else◌, inl, inr, int_max, length, le→leb, map,
  pos, refl, some, take-all, true, ℕ, ℤ, ◌++◌, ◌+◌, ◌==◌, ◌∙◌, ◌∷◌, ◌≡◌, ◌≤◌,
}
use cros.Common.Decimal.{chars}
use cros.Common.Text.{starts_with}
use cros.XmlrpcParams.{
  Content, ParamType, Text, as_string, param, set_string, set_string_n, string, unescape,
  unescape_at,
}
use cros.XmlrpcXml.Print.{escape_char, piece_text, pieces_text}
use cros.Mem.{Answers, Ptr, done, later}
use cros.Mem.Blocks.{read_buf_within}

-- What follows the ampersand in the entity that stands for a character; nothing for the others.
abbrev pub entity_rest : ℕ → Text
entity_rest c =
    if c == b'<'
    then chars "lt;"
    else if c == b'>'
    then chars "gt;"
    else if c == b'&'
    then chars "amp;"
    else if c == 39
    then chars "apos;"
    else if c == 34
    then chars "quot;"
    else []

-- Every character, with the rest of its entity behind it.
abbrev pub with_entity_rests : Text → Text
with_entity_rests [] = []
with_entity_rests (c ∷ cs) = c ∷ (entity_rest c ++ with_entity_rests cs)

-- One character that stringToXml was given.
unescape-char :
    (c : ℕ) (rest : Text)
    → unescape (piece_text (escape_char c) ++ rest) ≡ c ∷ (entity_rest c ++ unescape rest)
unfolding unescape unescape_at escape_char starts_with
unescape-char c rest = elim (Bool-cases (c == b'<')) [
  | inl e ↦ rw ((==_iff c b'<').0 e) refl
  | inr e0 ↦ elim (Bool-cases (c == b'>')) [
    | inl e ↦ rw ((==_iff c b'>').0 e) refl
    | inr e1 ↦ elim (Bool-cases (c == b'&')) [
      | inl e ↦ rw ((==_iff c b'&').0 e) refl
      | inr e2 ↦ elim (Bool-cases (c == 39)) [
        | inl e ↦ rw ((==_iff c 39).0 e) refl
        | inr e3 ↦ elim (Bool-cases (c == 34)) [
          | inl e ↦ rw ((==_iff c 34).0 e) refl
          | inr e4 ↦
              let e5 : (38 == c) ≡ false = ground (arith, e2) in
              rw (escape_char, e0, e1, e2, e3, e4, e5) refl
        ]
      ]
    ]
  ]
]

unescape-escape : (t : Text) → unescape (pieces_text (map escape_char t)) ≡ with_entity_rests t
unfolding unescape
unescape-escape [] = refl
unescape-escape (c ∷ cs) =
    unescape-char c (pieces_text (map escape_char cs))
    ∙ ap (λ (t : Text). c ∷ (entity_rest c ++ t)) (unescape-escape cs)

-- xmlrpcParamSetString of what stringToXml writes for a text, with memory and a length in the range of
-- `int`, returns 0 and makes the parameter a string with the characters of the text, each special
-- one followed by the rest of its entity.
pub set_string-escaped :
    (t : Text) (a : Answers) (ty : ParamType) (m : Ptr Text) (c : Content) (k mx : ℤ)
    → length (pieces_text (map escape_char t)) + 1 ≤ int_max
    → a 0 ≡ true
    → set_string (pieces_text (map escape_char t)) a (param ty m c k mx)
      ≡ done (pos 0, param string m (as_string (some (with_entity_rests t))) k mx, later a)
unfolding set_string set_string_n
set_string-escaped t a ty m c k mx fits answer =
    let val = pieces_text (map escape_char t) in
    rw
      (
        le→leb (length val + 1) int_max fits,
        answer,
        read_buf_within val (length val) (omega arith),
        take-all (length val) val (omega arith),
        unescape-escape t,
      )
      refl
