-- ===== src/XmlrpcProtocol/Framing.antt =====
-- What generateXmlrpcMessage writes is what parseXmlrpcMessage takes apart (src/xmlrpc_protocol.c).
use cros.Common.{
  Option, [], ap, append_assoc, arith, false, if◌then◌else◌, int_max, length, length-append,
  le→ltb_false, ltb, none, pos, refl, some, sym, take, take-all, ℕ, ◌*◌, ◌++◌, ◌+◌, ◌<◌, ◌∙◌, ◌∷◌,
  ◌≡◌, ◌≤◌,
}
use cros.Common.Decimal.{AreDigits, chars, decimal, decimal-Numeral}
use cros.Mem.{Answers, done, plenty, ◌>>=◌}
use cros.XmlrpcParams.{Text}
use cros.XmlrpcParamVector.{ParamVector}
use cros.XmlrpcXml.{DoubleText}
use cros.XmlrpcXml.Print.{Pieces, pieces_text}
use cros.XmlrpcProtocol.{MessageType, parser_incomplete, request, response, unknown_message}
use cros.XmlrpcProtocol.Generate.{
  body_pieces, call_pieces, generate, header_pieces, padded, params_pieces,
}
use cros.XmlrpcProtocol.Parse.{
  Peer, c_length, ends, header_loop, no_peer, parse_body, parse_message,
}
use cros.DynString.Texts.{Contents, chars_in}
use cros.XmlrpcProtocol.Padded.{padded-Numeral, read_int-padded}
use cros.XmlrpcProtocol.Header.{
  AreDigits-IsInLine, HasNoNul, HasNoNul-append, IsInLine, IsInLine-HasNoNul, blank_line_found,
  c_length-HasNoNul, digits_passed, ends_not, length_line_passed, line_passed, request_line_passed,
  response_line_passed,
}
use cros.XmlrpcXml.Numbers.{read_int}
use cros.XmlrpcProtocol.Assembled.{blank_line, content_type, framed, generated, length-le-framed}

-- A host's name, if there is one, is a part of a line.
abbrev pub IsPeerName : Option Text → Type 0
IsPeerName none = Unit {0}
IsPeerName (some host) = IsInLine host

abbrev pub IsCall : MessageType → Type 0
IsCall request = Unit {0}
IsCall response = Unit {0}
IsCall unknown_message = ⊥

IsInLine-append : (xs ys : Text) → IsInLine xs → IsInLine ys → IsInLine (xs ++ ys)
IsInLine-append [] ys h h' = h'
IsInLine-append (x ∷ xs) ys h h' = (h.0, h.1, h.2, IsInLine-append xs ys (h.3) h')

peer_line : (port : ℕ) → IsInLine (b':' ∷ decimal port)
peer_line port =
    let (d, ds, e, digits) = decimal-Numeral port in
    (
      (λ e'. omega (arith, e')),
      (λ e'. omega (arith, e')),
      (λ e'. omega (arith, e')),
      rw e (AreDigits-IsInLine (d ∷ ds) digits),
    )

line_end : (rest : Text) → HasNoNul rest → HasNoNul (chars "\r\n" ++ (content_type ++ rest))
line_end rest h = HasNoNul-append (chars "\r\n" ++ content_type) rest (omega arith) h

header_passed :
    (host : Option Text) (port : ℕ) (type : MessageType) (rest : Text)
    → IsPeerName host
    → IsCall type
    → HasNoNul rest
    → 6 < length rest
    → header_loop none false (pieces_text (header_pieces host port type) ++ (content_type ++ rest))
      ≡ header_loop (some rest) false rest
header_passed none port request rest h call no_nul len =
    request_line_passed (chars "\r\n" ++ (content_type ++ rest)) refl ∙ length_line_passed rest none
header_passed (some host) port request rest h call no_nul len =
    let peer = b':' ∷ decimal port in
    let next = chars "\r\n" ++ (content_type ++ rest) in
    let in_line = IsInLine-append host peer h (peer_line port) in
    let (l, passed) =
      line_passed (host ++ peer) next none in_line (line_end rest no_nul) (omega arith) in
    let grouped : (host ++ (peer ++ chars "\r\n")) ++ (content_type ++ rest)
        ≡ (host ++ peer) ++ next =
      append_assoc host (peer ++ chars "\r\n") (content_type ++ rest)
      ∙ ap (λ t. host ++ t) (append_assoc peer (chars "\r\n") (content_type ++ rest))
      ∙ sym (append_assoc host peer next) in
    let goes_on : ends ((host ++ peer) ++ next) ≡ false =
      ends_not 0 ((host ++ peer) ++ next)
        (HasNoNul-append (host ++ peer) next (IsInLine-HasNoNul (host ++ peer) in_line)
          (line_end rest no_nul))
        (omega (arith, length-append {0} (host ++ peer) next)) in
    ap
      (λ t.
        header_loop none false
          (chars "POST / HTTP/1.1\r\nUser-Agent: Custom XMLRPC\r\nHost: " ++ t))
      grouped
    ∙ request_line_passed ((host ++ peer) ++ next) goes_on
    ∙ passed
    ∙ length_line_passed rest l
header_passed host port response rest h call no_nul len = response_line_passed rest
header_passed host port unknown_message rest h call no_nul len = absurd call

header_read :
    (double_text : DoubleText) (message : Text) (type : MessageType) (method : Text)
    (params : ParamVector) (peer : Peer) (a : Answers) (size content : Text) (n : ℕ)
    → header_loop none false message ≡ some ((some size, false), content)
    → read_int size ≡ done (some (pos n))
    → parse_message double_text message type method params peer a ≡ (
        if ltb (c_length content) n
        then done ((parser_incomplete, type, method, params, a), peer)
        else (parse_body double_text (take n content) method params a >>= λ r.
            done (r, no_peer peer)))
unfolding parse_message
header_read double_text message type method params peer a size content n looped number =
    rw (parse_message, looped, number) refl

taken_apart :
    (double_text : DoubleText) (host : Option Text) (port : ℕ) (type type0 : MessageType)
    (content method0 : Text) (params0 : ParamVector) (peer : Peer) (a : Answers)
    → IsPeerName host
    → IsCall type
    → HasNoNul content
    → length content ≤ int_max
    → 2 < length content
    → parse_message double_text (framed host port type content) type0 method0 params0 peer a
      ≡ (parse_body double_text content method0 params0 a >>= λ r. done (r, no_peer peer))
taken_apart double_text host port type type0 content method0 params0 peer a h call no_nul fits
      long =
    let digits = padded (length content) in
    let after = blank_line ++ content in
    let (d, ds, e, are_digits) = padded-Numeral (length content) in
    let after_ok : HasNoNul after = HasNoNul-append blank_line content (omega arith) no_nul in
    let digits_ok : AreDigits digits = rw e are_digits in
    let looped : header_loop none false (framed host port type content)
        ≡ some ((some (digits ++ after), false), content) =
      header_passed host port type (digits ++ after) h call
        (HasNoNul-append digits after
          (IsInLine-HasNoNul digits (AreDigits-IsInLine digits digits_ok)) after_ok)
        (omega (arith, length-append {0} digits after))
      ∙ digits_passed digits after (some (digits ++ after)) digits_ok after_ok (omega arith)
      ∙ blank_line_found content (some (digits ++ after)) in
    header_read double_text (framed host port type content) type0 method0 params0 peer a
      (digits ++ after) content (length content) looped
      (read_int-padded (length content) (chars "\n\r\n" ++ content) fits)
    ∙ rw
        (
          c_length-HasNoNul content no_nul,
          le→ltb_false (length content) (length content) (omega arith),
          take-all (length content) content (omega arith),
        )
        refl

-- With memory for every append, generateXmlrpcMessage into any string, of a request or a response
-- whose content has no NUL, for a host that is part of a line or none, leaves a message there, if
-- three times the message's length, and 257 more, is an `int`; and parseXmlrpcMessage of that message,
-- whatever it is given besides, hands exactly that content to parseXmlrpcMessageBody; the host
-- and the port are lost.
pub parse_message-generate :
    (double_text : DoubleText) (s : Contents) (host : Option Text) (port : ℕ)
    (type type0 : MessageType) (method method0 : Text) (params params0 : ParamVector)
    (values : Pieces) (peer : Peer) (a : Answers)
    → params_pieces double_text params ≡ done values
    → IsPeerName host
    → IsCall type
    → HasNoNul (pieces_text (call_pieces type method values))
    → 3 * length (framed host port type (pieces_text (call_pieces type method values))) + 257
      ≤ int_max
    → (text : Text) × (max : ℕ) × (generate double_text plenty s host port type method params
        ≡ done (chars_in text max, plenty))
      × (parse_message double_text text type0 method0 params0 peer a ≡ (
          parse_body double_text (pieces_text (call_pieces type method values)) method0 params0 a
          >>= λ r. done (r, no_peer peer)))
unfolding body_pieces
parse_message-generate double_text s host port type type0 method method0 params params0 values peer
      a v h call no_nul short =
    let body = call_pieces type method values in
    let content = pieces_text body in
    let fits : length content ≤ int_max = omega (arith, length-le-framed host port type content) in
    let (max, made) =
      generated double_text s host port type method params body (rw v refl) short fits in
    (
      framed host port type content,
      max,
      made,
      taken_apart double_text host port type type0 content method0 params0 peer a h call no_nul fits
          (omega arith),
    )

-- A request for a plain method, or a response, without parameters is generated without the tag of the
-- parameters.
abbrev pub empty_content : MessageType → Text → Text
empty_content type method = pieces_text (call_pieces type method [])
