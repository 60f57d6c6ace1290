-- ===== src/XmlrpcProtocol/Generate.antt =====
-- generateXmlrpcMessage (src/xmlrpc_protocol.c): it ignores what the appending calls return.
use cros.Common.{
  Option, [], if◌then◌else◌, length, none, pos, replicate, some, suc, zero, ℕ, ◌++◌, ◌-◌, ◌==◌, ◌∷◌,
}
use cros.Common.Decimal.{chars, decimal}
use cros.Mem.{Answers, Run, done, fault, int, ◌>>=◌}
use cros.XmlrpcParams.{Text}
use cros.XmlrpcParamVector.{ParamVector, vector_at, vector_get_size}
use cros.XmlrpcXml.{DoubleText}
use cros.DynString.Texts.{Contents, cleared, patch_text, text_of}
use cros.XmlrpcXml.Append.{append_pieces}
use cros.XmlrpcXml.Print.{Pieces, str, to_xml}
use cros.XmlrpcProtocol.{
  MessageType, message_begin, message_end, method_name_begin, method_name_end, param_etag,
  param_tag, params_etag, params_tag, request, request_begin, request_end, response, response_begin,
  response_end, unknown_message, version,
}

-- `%010d` of a number that is not negative.
unfoldable pub padded : ℕ → Text
padded n = replicate (10 - length (decimal n)) b'0' ++ decimal n

abbrev pub host_pieces : Option Text → ℕ → Pieces
host_pieces none port = []
host_pieces (some host) port = str host ∷ str (b':' ∷ decimal port) ∷ []

abbrev pub header_pieces : Option Text → ℕ → MessageType → Pieces
header_pieces host port request =
    str (chars "POST ")
    ∷ str (chars "/")
    ∷ str (chars " HTTP/1.1\r\n")
    ∷ str (chars "User-Agent: ")
    ∷ str version
    ∷ str (chars "\r\nHost: ")
    ∷ (host_pieces host port ++ (str (chars "\r\n") ∷ []))
header_pieces host port response =
    str (chars "HTTP/1.1 200 OK\r\n")
    ∷ str (chars "Server: ")
    ∷ str version
    ∷ str (chars "\r\n")
    ∷ []
header_pieces host port unknown_message = []

abbrev pub call_begin : MessageType → Text → Pieces
call_begin request method =
    str request_begin ∷ str method_name_begin ∷ str method ∷ str method_name_end ∷ []
call_begin response method = str response_begin ∷ []
call_begin unknown_message method = []

abbrev pub call_end : MessageType → Pieces
call_end request = str request_end ∷ []
call_end response = str response_end ∷ []
call_end unknown_message = []

-- The content around the parameters.
abbrev pub call_pieces : MessageType → Text → Pieces → Pieces
call_pieces type method values =
    str message_begin
    ∷ (call_begin type method ++ (values ++ (call_end type ++ (str message_end ∷ []))))

module _ (double_text : DoubleText) where
  -- The loop over the parameters from place i on: n are left.
  unfoldable pub param_pieces : ParamVector → ℕ → ℕ → Run Pieces
  param_pieces params zero i = done []
  param_pieces params (suc n) i = vector_at params (pos i) >>= λ r. elim r [
    | none ↦ fault
    | some p ↦ to_xml double_text p >>= λ value. param_pieces params n (suc i) >>= λ more.
        done (str param_tag ∷ (value ++ (str param_etag ∷ more)))
  ]

  unfoldable pub params_pieces : ParamVector → Run Pieces
  unfolding param_pieces
  params_pieces params =
      if vector_get_size params == 0
      then done []
      else (param_pieces params (vector_get_size params) 0 >>= λ inner.
          done (str params_tag ∷ (inner ++ (str params_etag ∷ []))))

  unfoldable pub body_pieces : MessageType → Text → ParamVector → Run Pieces
  unfolding params_pieces
  body_pieces type method params =
      params_pieces params >>= λ values. done (call_pieces type method values)

  -- The length of the content is written over ten blanks at the end. A length of more than ten digits
  -- is no `int`, so that the code's test for one never holds.
  unfoldable pub generate :
      Answers
      → Contents
      → Option Text
      → ℕ
      → MessageType
      → Text
      → ParamVector
      → Run (Contents × Answers)
  generate a message host port type method params = do
    body ← body_pieces type method params
    m1 ← append_pieces a (cleared message) (
        header_pieces host port type
        ++ (str (chars "Content-Type: text/xml\r\nContent-length: ") ∷ []))
    m2 ← append_pieces (m1.1) (m1.0) (str (chars "          \r\n\r\n") ∷ [])
    m3 ← append_pieces (m2.1) (m2.0) body
    len ← int (length (text_of (m3.0)) - length (text_of (m2.0)))
    patch_text (m3.1) (m3.0) (padded len) (length (text_of (m1.0)))
