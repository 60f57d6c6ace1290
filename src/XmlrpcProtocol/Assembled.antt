-- ===== src/XmlrpcProtocol/Assembled.antt =====
-- The whole text that generateXmlrpcMessage leaves (src/xmlrpc_protocol.c).
use cros.Common.{
  Option, [], ap, append_assoc, arith, int_max, length, length-append, le→leb, ℕ, ◌*◌, ◌++◌, ◌+◌,
  ◌-◌, ◌∙◌, ◌∷◌, ◌≡◌, ◌≤◌,
}
use cros.Common.Decimal.{chars}
use cros.Mem.{done, plenty}
use cros.XmlrpcParams.{Text}
use cros.XmlrpcParamVector.{ParamVector}
use cros.XmlrpcXml.{DoubleText}
use cros.XmlrpcXml.Print.{Pieces, pieces_text, str}
use cros.XmlrpcProtocol.{MessageType}
use cros.XmlrpcProtocol.Generate.{body_pieces, generate, header_pieces, padded}
use cros.DynString.Texts.{Contents, chars_in, cleared, patch_text, patch_text-plenty}
use cros.XmlrpcXml.Append.{append_pieces, append_pieces-cleared, append_pieces-plenty}
use cros.XmlrpcProtocol.Padded.{length-padded}
use cros.XmlrpcXml.Written.{pieces_text-append}

abbrev pub content_type : Text
content_type = chars "Content-Type: text/xml\r\nContent-length: "

abbrev pub blanks : Text
blanks = chars "          "

abbrev pub blank_line : Text
blank_line = chars "\r\n\r\n"

-- The whole message.
abbrev pub framed : Option Text → ℕ → MessageType → Text → Text
framed host port type content =
    pieces_text (header_pieces host port type)
    ++ (content_type ++ (padded (length content) ++ (blank_line ++ content)))

-- Its part before the length.
abbrev head_pieces : Option Text → ℕ → MessageType → Pieces
head_pieces host port type = header_pieces host port type ++ (str content_type ∷ [])

length-framed :
    (host : Option Text) (port : ℕ) (type : MessageType) (content : Text)
    → length content ≤ int_max
    → length (framed host port type content)
      ≡ length (pieces_text (head_pieces host port type)) + (14 + length content)
length-framed host port type content fits =
    let digits = padded (length content) in
    let header = pieces_text (header_pieces host port type) in
    omega (
      arith,
      length-append {0} header (content_type ++ (digits ++ (blank_line ++ content))),
      length-append {0} digits (blank_line ++ content),
      length-padded (length content) fits,
      ap length (pieces_text-append (header_pieces host port type) (str content_type ∷ [])),
      length-append {0} header content_type,
    )

pub length-le-framed :
    (host : Option Text) (port : ℕ) (type : MessageType) (content : Text)
    → length content ≤ length (framed host port type content)
length-le-framed host port type content =
    let digits = padded (length content) in
    let header = pieces_text (header_pieces host port type) in
    omega (
      arith,
      length-append {0} header (content_type ++ (digits ++ (blank_line ++ content))),
      length-append {0} digits (blank_line ++ content),
    )

regroup_framed :
    (host : Option Text) (port : ℕ) (type : MessageType) (content : Text)
    → pieces_text (head_pieces host port type)
        ++ (padded (length content) ++ (blank_line ++ content))
      ≡ framed host port type content
regroup_framed host port type content =
    rw (pieces_text-append (header_pieces host port type) (str content_type ∷ [])) (
      append_assoc (pieces_text (header_pieces host port type)) content_type
        (padded (length content) ++ (blank_line ++ content)))

-- The text before the content, the length still blank.
abbrev start : Text → Text
start head = head ++ (blanks ++ blank_line)

-- The four steps, each with the capacity that it leaves.
assembled :
    (double_text : DoubleText) (s : Contents) (host : Option Text) (port : ℕ) (type : MessageType)
    (method whole head : Text) (params : ParamVector) (body : Pieces) (max1 max2 max3 max4 : ℕ)
    → body_pieces double_text type method params ≡ done body
    → length (pieces_text body) ≤ int_max
    → append_pieces plenty (cleared s) (head_pieces host port type)
      ≡ done (chars_in head max1, plenty)
    → append_pieces plenty (chars_in head max1) (str (blanks ++ blank_line) ∷ [])
      ≡ done (chars_in (start head) max2, plenty)
    → append_pieces plenty (chars_in (start head) max2) body
      ≡ done (chars_in (start head ++ pieces_text body) max3, plenty)
    → patch_text plenty
        (chars_in (start head ++ pieces_text body) max3)
        (padded (length (pieces_text body)))
        (length head)
      ≡ done (chars_in whole max4, plenty)
    → generate double_text plenty s host port type method params
      ≡ done (chars_in whole max4, plenty)
unfolding generate
assembled double_text s host port type method whole head params body max1 max2 max3 max4 h fits e1
      e2 e3 e4 =
    let content = pieces_text body in
    let size : length (start head ++ content) - length (start head) ≡ length content =
      omega (arith, length-append {0} (start head) content) in
    rw (h, e1, e2, e3, size, le→leb (length content) int_max fits) e4

pub generated :
    (double_text : DoubleText) (s : Contents) (host : Option Text) (port : ℕ) (type : MessageType)
    (method : Text) (params : ParamVector) (body : Pieces)
    → body_pieces double_text type method params ≡ done body
    → 3 * length (framed host port type (pieces_text body)) + 257 ≤ int_max
    → length (pieces_text body) ≤ int_max
    → (max : ℕ) × (generate double_text plenty s host port type method params
        ≡ done (chars_in (framed host port type (pieces_text body)) max, plenty))
generated double_text s host port type method params body h short fits =
    let head = pieces_text (head_pieces host port type) in
    let content = pieces_text body in
    let digits = padded (length content) in
    let total = length-framed host port type content fits in
    let sizes : length (start head) ≡ length head + 14 =
      omega (arith, length-append {0} head (blanks ++ blank_line)) in
    let regrouped : start head ++ content ≡ head ++ (blanks ++ (blank_line ++ content)) =
      append_assoc head (blanks ++ blank_line) content in
    let (max1, e1) =
      append_pieces-cleared s (head_pieces host port type)
        (omega (
          arith,
          ap length (pieces_text-append (header_pieces host port type) (str content_type ∷ [])),
          length-append {0} (pieces_text (header_pieces host port type)) content_type,
        ))
        (omega (arith, total)) in
    let (max2, e2) =
      append_pieces-plenty head max1 (str (blanks ++ blank_line) ∷ []) (omega (arith, total)) in
    let (max3, e3) = append_pieces-plenty (start head) max2 body (omega (arith, total, sizes)) in
    let (max4, e4) =
      patch_text-plenty head blanks digits (blank_line ++ content) max3
        (length-padded (length content) fits)
        (omega
          (arith, total, sizes, ap length regrouped, length-append {0} (start head) content)) in
    (
      max4,
      assembled double_text s host port type method (framed host port type content) head params body
          max1 max2 max3 max4 h fits e1 e2 e3
          (ap (λ (t : Text). patch_text plenty (chars_in t max3) digits (length head)) regrouped
            ∙ e4
            ∙ ap (λ (t : Text). done (chars_in t max4, plenty))
                (regroup_framed host port type content)),
    )
