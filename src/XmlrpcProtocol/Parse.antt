-- ===== src/XmlrpcProtocol/Parse.antt =====
-- parseXmlrpcMessage and the functions it calls (src/xmlrpc_protocol.c).
use cros.Common.{
  Bool, Option, [], drop, false, if◌then◌else◌, leb, length, ltb, minus_one, negsuc, none, pos,
  replicate, some, suc, take, true, zero, ℕ, ℤ, ◌&&◌, ◌++◌, ◌+◌, ◌==◌, ◌∷◌,
}
use cros.Common.Scan.{scan, tagged, ◌or_else◌}
use cros.Mem.{Answers, Run, done, fault, later, no_fuel, ◌>>=◌}
use cros.XmlrpcParams.{Text, init}
use cros.XmlrpcParamVector.{ParamVector, vector_push_back}
use cros.XmlrpcXml.{DoubleText}
use cros.XmlrpcXml.Parse.{from_xml, is_minus_one}
use cros.XmlrpcProtocol.{
  MessageType, ParserState, fault_etag, fault_tag, method_name_begin, method_name_end, param_etag,
  param_tag, params_etag, params_tag, parser_done, parser_error, parser_incomplete, request,
  request_begin, response, response_begin, unknown_message,
}
use cros.Common.Decimal.{chars}
use cros.XmlrpcXml.Numbers.{read_int}

-- The parser's state, the parameters and the answers left.
abbrev pub ParsedParams : Type 0
ParsedParams = Run (ParserState × ParamVector × Answers)

-- What the first loop of parseXmlrpcMessageParams finds.
pub data BodyTag : Type 0 where
  params_begun fault_begun : Text → BodyTag

abbrev pub body_at : Text → Option BodyTag
body_at c = tagged params_tag params_begun c or_else tagged fault_tag fault_begun c

-- What the loop over the parameters looks for outside of one, and inside of one.
pub data ParamTag : Type 0 where
  next_tag : Text → ParamTag
  last_tag : ParamTag

abbrev pub param_begin_at : Text → Option ParamTag
param_begin_at c = tagged params_etag (λ t. last_tag) c or_else tagged param_tag next_tag c

abbrev pub param_end_at : Text → Option ParamTag
param_end_at c = tagged params_etag (λ t. last_tag) c or_else tagged param_etag next_tag c

module _ (double_text : DoubleText) where
  -- xmlrpcParamFromXml and xmlrpcParamVectorPushBack.
  unfoldable pub push_value :
      Text → ParamVector → Answers → (ParamVector → Answers → ParsedParams) → ParsedParams
  push_value text params a continue = from_xml double_text text init a >>= λ (ret, p, a1).
      if is_minus_one ret
      then done (parser_error, params, a1)
      else (vector_push_back a1 params (some p) >>= λ (size, params', a2). elim size [
        | pos n ↦ continue params' a2
        | negsuc n ↦ done (parser_error, params', a2)
      ])

  -- dynStringReplaceWithStrN before that, whose result nobody looks at: without memory the string is
  -- empty.
  unfoldable pub push_text :
      Text → ParamVector → Answers → (ParamVector → Answers → ParsedParams) → ParsedParams
  unfolding push_value
  push_text text params a continue = push_value (if a 0 then text else []) params (later a) continue

  -- The loop from a place outside of a parameter.
  unfoldable pub param_loop : ℕ → Text → ParamVector → Answers → ParsedParams
  unfolding push_text
  param_loop zero c params a = no_fuel
  param_loop (suc fuel) c params a = elim (scan param_begin_at c) [
    | none ↦ done (parser_done, params, a)
    | some (k, last_tag) ↦ done (parser_done, params, a)
    | some (k, next_tag c1) ↦ elim (scan param_end_at c1) [
      | none ↦ done (parser_done, params, a)
      | some (n, last_tag) ↦ done (parser_done, params, a)
      | some (zero, next_tag c2) ↦ param_loop fuel c2 params a
      | some (suc n, next_tag c2) ↦
          push_text (take (suc n) c1) params a (λ params' a'. param_loop fuel c2 params' a')
    ]
  ]

  -- The loop over a fault: every end tag ends a value, the first of which starts behind the start
  -- tag. The start of any other is NULL, with which dynStringReplaceWithStrN empties the string.
  unfoldable pub fault_loop : ℕ → Bool → Text → ParamVector → Answers → ParsedParams
  unfolding push_text push_value
  fault_loop zero first c params a = no_fuel
  fault_loop (suc fuel) first c params a = elim (scan (tagged fault_etag (λ t. t)) c) [
    | none ↦ done (parser_done, params, a)
    | some (zero, c') ↦ fault_loop fuel false c' params a
    | some (suc n, c') ↦
        if first
        then push_text (take (suc n) c) params a (λ params' a'. fault_loop fuel false c' params' a')
        else push_value [] params a (λ params' a'. fault_loop fuel false c' params' a')
  ]

  unfoldable pub parse_params : Text → ParamVector → Answers → ParsedParams
  unfolding param_loop fault_loop
  parse_params body params a = elim (scan body_at body) [
    | none ↦ done (parser_error, params, a)
    | some (k, params_begun c) ↦ param_loop (suc (length c)) c params a
    | some (k, fault_begun c) ↦ fault_loop (suc (length c)) true c params a
  ]

-- What parseXmlrpcMessageBody finds first.
abbrev pub call_at : Text → Option (MessageType × Text)
call_at c =
    tagged request_begin (λ t. (request, t)) c or_else tagged response_begin (λ t. (response, t)) c

-- The name of the method and what follows it.
abbrev pub method_name_at : Text → Option (Text × Text)
method_name_at c = elim (scan (tagged method_name_begin (λ t. t)) c) [
  | none ↦ none
  | some (k, c1) ↦ elim (scan (tagged method_name_end (λ t. t)) c1) [
    | none ↦ none
    | some (n, c2) ↦ some (take n c1, c2)
  ]
]

-- The state, the type, the method, the parameters and the answers left.
abbrev pub ParsedMessage : Type 0
ParsedMessage = Run (ParserState × MessageType × Text × ParamVector × Answers)

abbrev pub with_params : MessageType → Text → ParsedParams → ParsedMessage
with_params type method r = r >>= λ (state, params, a). done (state, type, method, params, a)

module _ (double_text : DoubleText) where
  -- The method is appended to what its string holds.
  unfoldable pub parse_body : Text → Text → ParamVector → Answers → ParsedMessage
  parse_body body method params a = elim (scan call_at body) [
    | none ↦ done (parser_error, unknown_message, method, params, a)
    | some (k, (request, c)) ↦ elim (method_name_at c) [
      | none ↦ done (parser_error, request, method, params, a)
      | some (name, c2) ↦
          if a 0
          then with_params request (method ++ name) (parse_params double_text c2 params (later a))
          else done (parser_error, request, method, params, later a)
    ]
    | some (k, (type, c)) ↦ with_params type method (parse_params double_text c params a)
  ]

-- strncasecmp of lower-case letters against the start of a text.
abbrev pub lower : ℕ → ℕ
lower c = if leb b'A' c && leb c b'Z' then c + 32 else c

unfoldable pub starts_with_nocase : Text → Text → Bool
starts_with_nocase [] text = true
starts_with_nocase (c ∷ cs) [] = false
starts_with_nocase (c ∷ cs) (d ∷ ds) = if c == lower d then starts_with_nocase cs ds else false

-- The text ends here, or has a NUL.
abbrev pub ends : Text → Bool
ends [] = true
ends (c ∷ cs) = c == 0

-- `strncasecmp(msg, "Host: ", 16)` compares the NUL of the literal too.
abbrev pub host_at : Text → Bool
host_at c = starts_with_nocase (chars "host: ") c && ends (drop 6 c)

abbrev pub length_at : Text → Bool
length_at c = starts_with_nocase (chars "content-length: ") c

abbrev pub blank_line_at : Text → Option Text
blank_line_at c = tagged (chars "\r\n\r\n") (λ t. t) c or_else tagged (chars "\n\n") (λ t. t) c

-- What the loop over the header knows: the text behind the last "Content-length: ", and whether there
-- was a host; and the body, if the loop has met a blank line.
abbrev pub Header : Type 0
Header = Option Text × Bool

unfoldable pub header_loop : Option Text → Bool → Text → Option (Header × Text)
header_loop length_init host [] = none
header_loop length_init host (c ∷ cs) =
    let length_init' = if length_at (c ∷ cs) then some (drop 16 (c ∷ cs)) else length_init in
    elim (host_at (c ∷ cs)) [
      | true ↦ header_loop length_init' true cs
      | false ↦ elim (blank_line_at (c ∷ cs)) [
        | some body ↦ some ((length_init', host), body)
        | none ↦ header_loop length_init' host cs
      ]
    ]

-- strlen
unfoldable pub c_length : Text → ℕ
c_length [] = 0
c_length (c ∷ cs) = if c == 0 then 0 else suc (c_length cs)

-- A host and a port, as they stand in the process: 256 bytes and an `int`.
pub record Peer : Type 0 where
  pub host : Text
  pub port : ℤ

-- `memset(host, 0, sizeof(256))` clears as many bytes as an `int` has.
abbrev pub no_peer : Peer → Peer
no_peer p = record { host = replicate 4 0 ++ drop 4 p.host; port = minus_one }

-- The body, as many characters as the header says; a negative length is none.
abbrev pub body_of : ℤ → Text → Text
body_of (pos n) body = take n body
body_of (negsuc n) body = []

abbrev pub is_longer : ℤ → Text → Bool
is_longer (pos n) body = ltb (c_length body) n
is_longer (negsuc n) body = false

-- parseXmlrpcMessage. Where there is a host the code reads an array that was never written.
unfoldable pub parse_message :
    DoubleText
    → Text
    → MessageType
    → Text
    → ParamVector
    → Peer
    → Answers
    → Run ((ParserState × MessageType × Text × ParamVector × Answers) × Peer)
parse_message double_text message type method params peer a =
    elim (header_loop none false message) [
      | none ↦ done ((parser_incomplete, type, method, params, a), peer)
      | some ((none, host), body) ↦ done ((parser_error, type, method, params, a), peer)
      | some ((some length_init, host), body) ↦ read_int length_init >>= λ r. elim r [
        | none ↦ done ((parser_error, type, method, params, a), peer)
        | some len ↦
            if is_longer len body
            then done ((parser_incomplete, type, method, params, a), peer)
            else if host
            then fault
            else (parse_body double_text (body_of len body) method params a >>= λ r'.
                done (r', no_peer peer))
      ]
    ]
