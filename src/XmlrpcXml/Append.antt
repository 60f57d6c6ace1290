-- ===== src/XmlrpcXml/Append.antt =====
-- xmlrpcParamToXml (src/xmlrpc_params.c) as it appends to a DynString: what the appending calls
-- return is ignored.
use cros.Common.{
  [], ap, append-nil, append_assoc, arith, int_max, length, length-append, refl, ℕ, ◌*◌, ◌++◌, ◌+◌,
  ◌<◌, ◌∙◌, ◌∷◌, ◌≡◌, ◌≤◌,
}
use cros.Mem.{Answers, Run, done, plenty, ◌>>=◌}
use cros.DynString.Texts.{
  Contents, chars_in, cleared, nothing, push_text, push_text-plenty, text_of,
}
use cros.XmlrpcParams.{Param, Text}
use cros.XmlrpcXml.{DoubleText}
use cros.XmlrpcXml.Print.{Piece, Pieces, piece_text, pieces_text, to_xml}

unfoldable pub append_pieces : Answers → Contents → Pieces → Run (Contents × Answers)
append_pieces a s [] = done (s, a)
append_pieces a s (p ∷ ps) = push_text a s (piece_text p) >>= λ r. append_pieces (r.1) (r.0) ps

unfoldable pub param_to_xml : DoubleText → Answers → Param → Contents → Run (Contents × Answers)
param_to_xml double_text a p s = to_xml double_text p >>= λ ps. append_pieces a s ps

pub append_pieces-plenty :
    (text : Text) (max : ℕ) (ps : Pieces)
    → 3 * (length text + length (pieces_text ps)) + 257 ≤ int_max
    → (max' : ℕ) × (append_pieces plenty (chars_in text max) ps
        ≡ done (chars_in (text ++ pieces_text ps) max', plenty))
unfolding append_pieces
append_pieces-plenty text max [] h = (max, rw append-nil refl)
append_pieces-plenty text max (p ∷ ps) h =
    let sizes = length-append {0} (piece_text p) (pieces_text ps) in
    let (m, pushed) = push_text-plenty (chars_in text max) (piece_text p) (omega (arith, sizes)) in
    let (m', e) =
      append_pieces-plenty (text ++ piece_text p) m ps
        (omega (arith, sizes, length-append {0} text (piece_text p))) in
    (
      m',
      rw pushed (
          e
          ∙ ap (λ (t : Text). done (chars_in t m', plenty))
              (append_assoc text (piece_text p) (pieces_text ps))),
    )

-- The first append allocates.
append_pieces-first :
    (s : Contents) (p : Piece) (ps : Pieces)
    → 3 * (length (text_of s) + length (pieces_text (p ∷ ps))) + 257 ≤ int_max
    → (max : ℕ) × (append_pieces plenty s (p ∷ ps)
        ≡ done (chars_in (text_of s ++ pieces_text (p ∷ ps)) max, plenty))
unfolding append_pieces
append_pieces-first s p ps h =
    let sizes = length-append {0} (piece_text p) (pieces_text ps) in
    let (m, pushed) = push_text-plenty s (piece_text p) (omega (arith, sizes)) in
    let (m', e) =
      append_pieces-plenty (text_of s ++ piece_text p) m ps
        (omega (arith, sizes, length-append {0} (text_of s) (piece_text p))) in
    (
      m',
      rw pushed (
          e
          ∙ ap (λ (t : Text). done (chars_in t m', plenty))
              (append_assoc (text_of s) (piece_text p) (pieces_text ps))),
    )

append_pieces-some :
    (s : Contents) (ps : Pieces)
    → 0 < length (pieces_text ps)
    → 3 * (length (text_of s) + length (pieces_text ps)) + 257 ≤ int_max
    → (max : ℕ) × (append_pieces plenty s ps
        ≡ done (chars_in (text_of s ++ pieces_text ps) max, plenty))
append_pieces-some s [] positive h = absurd (omega arith)
append_pieces-some s (p ∷ ps) positive h = append_pieces-first s p ps h

pub append_pieces-cleared :
    (s : Contents) (ps : Pieces)
    → 0 < length (pieces_text ps)
    → 3 * length (pieces_text ps) + 257 ≤ int_max
    → (max : ℕ) × (append_pieces plenty (cleared s) ps
        ≡ done (chars_in (pieces_text ps) max, plenty))
append_pieces-cleared nothing ps positive h = append_pieces-some nothing ps positive (omega arith)
append_pieces-cleared (chars_in text m) ps positive h = append_pieces-plenty [] m ps (omega arith)

-- What xmlrpcParamToXml leaves in a string that was empty.
pub param_to_xml-text :
    (double_text : DoubleText) (p : Param) (s : Contents) (ps : Pieces) (text : Text)
    → to_xml double_text p ≡ done ps
    → pieces_text ps ≡ text
    → 0 < length text
    → 3 * length text + 257 ≤ int_max
    → (max : ℕ) × (param_to_xml double_text plenty p (cleared s) ≡ done (chars_in text max, plenty))
unfolding param_to_xml
param_to_xml-text double_text p s ps text returns same positive short =
    let (max, appended) =
      append_pieces-cleared s ps (omega (arith, ap length same)) (omega (arith, ap length same)) in
    (max, rw returns (appended ∙ ap (λ (t : Text). done (chars_in t max, plenty)) same))
