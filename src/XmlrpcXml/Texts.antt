-- ===== src/XmlrpcXml/Texts.antt =====
-- The loops of the parser over numbers, texts and names that were written.
use cros.Common.{
  [], ap, arith, drop, false, int_max, length, length-append, le→leb, none, pos, refl, some,
  take-append_eq, ℕ, ℤ, ◌++◌, ◌+◌, ◌<◌, ◌==◌, ◌∷◌, ◌≡◌, ◌≢◌,
}
use cros.Common.Scan.{IsPlain, scan, scan-plain, tagged}
use cros.Common.Text.{starts_with}
use cros.XmlrpcParams.{
  Content, ParamType, Text, as_string, integer, param, set_string_n, string, unescape, unescape_at,
}
use cros.XmlrpcXml.{i4_etag, int_etag, name_etag, name_tag, string_etag}
use cros.XmlrpcXml.Numbers.{print_int, print_int-IsPlain}
use cros.XmlrpcXml.Parse.{end_at, member_name_at}
use cros.XmlrpcXml.Steps.{IsClean, IsClean-IsPlain}
use cros.Mem.{Ptr, done, plenty, read_buf}

pub tagged-none :
    (tag : Text) (k : Text → Text) (c : ℕ) (cs : Text)
    → c ≢ b'<'
    → tagged (b'<' ∷ tag) k (c ∷ cs) ≡ none
unfolding starts_with
tagged-none tag k c cs h = ground arith

pub end_integer :
    (v : ℤ) (rest : Text)
    → scan (end_at integer) (print_int v ++ (int_etag ++ rest))
      ≡ some (length (print_int v) + 0, rest)
unfolding scan starts_with
end_integer v rest =
    scan-plain (end_at integer) (print_int v) (int_etag ++ rest)
      (λ c cs h.
        rw (tagged-none (drop 1 i4_etag) (λ t. t) c cs h)
          (tagged-none (drop 1 int_etag) (λ t. t) c cs h))
      (print_int-IsPlain v)

pub end_string :
    (t rest : Text)
    → IsClean t
    → scan (end_at string) (t ++ (string_etag ++ rest)) ≡ some (length t + 0, rest)
unfolding scan starts_with
end_string t rest clean =
    scan-plain (end_at string) t (string_etag ++ rest)
      (λ c cs h. tagged-none (drop 1 string_etag) (λ t. t) c cs h) (IsClean-IsPlain t clean)

unescape-clean : (t : Text) → IsClean t → unescape t ≡ t
unfolding unescape unescape_at starts_with
unescape-clean [] h = refl
unescape-clean (c ∷ cs) h =
    let e : (b'&' == c) ≡ false = ground (arith, h.2) in
    rw (unescape_at, e) (ap (λ l. c ∷ l) (unescape-clean cs (h.5)))

pub name_of_member :
    (name rest : Text)
    → IsPlain name
    → member_name_at (name_tag ++ (name ++ (name_etag ++ rest))) ≡ some (name, rest)
unfolding scan starts_with
name_of_member name rest plain =
    rw
      (
        member_name_at,
        scan-plain (tagged name_etag (λ t. t)) name (name_etag ++ rest)
            (λ c cs h. tagged-none (drop 1 name_etag) (λ t. t) c cs h) plain,
        take-append_eq (length name + 0) name (name_etag ++ rest) (omega arith),
      )
      refl

-- A clean text is stored as it is.
pub set_string_n-clean :
    (ty : ParamType) (m : Ptr Text) (c : Content) (k mx : ℤ) (t rest : Text)
    → IsClean t
    → length t < int_max
    → set_string_n (t ++ rest) (length t + 0) plenty (param ty m c k mx)
      ≡ done (pos 0, param string m (as_string (some t)) k mx, plenty)
unfolding set_string_n read_buf
set_string_n-clean ty m c k mx t rest clean fits =
    rw
      (
        le→leb (length t + 0 + 1) int_max (omega arith),
        le→leb (length t + 0) (length (t ++ rest)) (omega (arith, length-append {0} t rest)),
        take-append_eq (length t + 0) t rest (omega arith),
        unescape-clean t clean,
      )
      refl
