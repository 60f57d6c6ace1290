-- ===== src/XmlrpcProtocol/Tests.antt =====
-- Messages at concrete values (src/xmlrpc_protocol.c).
use cros.Common.{[], arith, minus_one, none, pos, refl, replicate, some, ℕ, ◌++◌, ◌∷◌, ◌≡◌}
use cros.Common.Decimal.{chars, decimal}
use cros.Common.Scan.{scan}
use cros.Common.Text.{starts_with}
use cros.Mem.Blocks.{overwrite}
use cros.Mem.{done, nil_ptr, plenty, ◌>>=◌}
use cros.XmlrpcParams.{Param, Text, as_int, cons, elem_at, init, integer, no_params, param, set_int}
use cros.XmlrpcParams.Push.{push_with}
use cros.XmlrpcParamVector.{ParamVector, vector_at, vector_get_size, vector_init, vector_push_back}
use cros.XmlrpcXml.{DoubleText}
use cros.XmlrpcXml.Numbers.{print_int, read_int}
use cros.DynString.Texts.{chars_in, nothing, patch_text, push_text}
use cros.XmlrpcXml.Append.{append_pieces}
use cros.XmlrpcXml.Print.{int_to_xml, str, to_xml}
use cros.XmlrpcXml.Parse.{from_xml, param_from_xml}
use cros.XmlrpcProtocol.{
  param_etag, param_tag, params_etag, params_tag, parser_done, request, response, unknown_message,
}
use cros.XmlrpcProtocol.Framing.{parse_message-generate}
use cros.XmlrpcProtocol.Generate.{body_pieces, generate, padded, params_pieces}
use cros.XmlrpcProtocol.Parse.{
  Peer, c_length, header_loop, no_peer, parse_body, parse_message, parse_params, starts_with_nocase,
}

abbrev no_doubles : DoubleText
no_doubles = record { print = λ v. []; read = λ t. none }

abbrev seven : Param
seven = param integer nil_ptr (as_int (pos 7)) minus_one minus_one

abbrev args : ParamVector
args = record { block = some (4, cons seven no_params); size = 1; max = 4 }

abbrev ping : Text
ping =
    chars
      "POST / HTTP/1.1\r\nUser-Agent: Custom XMLRPC\r\nHost: box:80\r\nContent-Type: text/xml\r\nContent-length: 0000000134\r\n\r\n<?xml version=\"1.0\"?><methodCall><methodName>ping</methodName><params><param><value><int>7</int></value></param></params></methodCall>"

ping_generated :
    generate no_doubles plenty nothing (some (chars "box")) 80 request (chars "ping") args
    ≡ done (chars_in ping 261, plenty)
unfolding generate append_pieces push_text overwrite patch_text padded body_pieces vector_get_size
    vector_at elem_at to_xml print_int decimal
ping_generated = refl

abbrev nobody : Peer
nobody = record { host = replicate 8 1; port = pos 0 }

ping_parsed :
    parse_message no_doubles ping unknown_message [] vector_init nobody plenty
    ≡ done ((parser_done, request, chars "ping", args, plenty), no_peer nobody)
unfolding parse_message header_loop read_int scan starts_with starts_with_nocase c_length parse_body
    parse_params from_xml param_from_xml vector_push_back init set_int push_with vector_init
ping_parsed = refl

seven_written :
    params_pieces no_doubles args
    ≡ done (
        str params_tag
        ∷ str param_tag
        ∷ (int_to_xml (pos 7) ++ (str param_etag ∷ str params_etag ∷ [])))
unfolding params_pieces vector_get_size vector_at elem_at to_xml
seven_written = refl

parse_message-generate_example :
    (text : Text) × (max : ℕ) × (generate no_doubles plenty nothing
        (some (chars "box"))
        80
        response
        []
        args
      ≡ done (chars_in text max, plenty))
    × (parse_message no_doubles text unknown_message [] vector_init nobody plenty ≡ (
        parse_body no_doubles
          (chars
            "<?xml version=\"1.0\"?><methodResponse><params><param><value><int>7</int></value></param></params></methodResponse>")
          []
          vector_init
          plenty
        >>= λ r. done (r, no_peer nobody)))
unfolding print_int decimal padded
parse_message-generate_example =
    parse_message-generate no_doubles nothing (some (chars "box")) 80 response unknown_message [] []
      args vector_init
      (str params_tag
        ∷ str param_tag
        ∷ (int_to_xml (pos 7) ++ (str param_etag ∷ str params_etag ∷ [])))
      nobody plenty seven_written (omega arith) tt (omega arith) (omega arith)
