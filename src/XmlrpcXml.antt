-- ===== src/XmlrpcXml.antt =====
-- The XML of XMLRPC values: the tags of include/xmlrpc_tags.h, and the half of src/xmlrpc_params.c
-- that writes and reads them. A double is its bits; how the C library writes and reads one is a
-- parameter.
pub mod Print
pub mod Append
pub mod Escapes
pub mod Numbers
pub mod Parse
pub mod Steps
pub mod Texts
pub mod Places
pub mod Values
pub mod Written
pub mod Doubles
pub mod RoundTrip
mod Tests
use cros.Common.{Option, ℕ}
use cros.Common.Decimal.{chars}
use cros.XmlrpcParams.{Text}

-- `snprintf("%.17g")` and `sscanf("%lf")`, which gives nothing if it cannot read a number.
pub record DoubleText : Type 0 where
  pub print : ℕ → Text
  pub read : Text → Option ℕ

abbrev pub value_tag : Text
value_tag = chars "<value>"

abbrev pub value_etag : Text
value_etag = chars "</value>"

abbrev pub boolean_tag : Text
boolean_tag = chars "<boolean>"

abbrev pub boolean_etag : Text
boolean_etag = chars "</boolean>"

abbrev pub double_tag : Text
double_tag = chars "<double>"

abbrev pub double_etag : Text
double_etag = chars "</double>"

abbrev pub i4_tag : Text
i4_tag = chars "<i4>"

abbrev pub i4_etag : Text
i4_etag = chars "</i4>"

abbrev pub int_tag : Text
int_tag = chars "<int>"

abbrev pub int_etag : Text
int_etag = chars "</int>"

abbrev pub string_tag : Text
string_tag = chars "<string>"

abbrev pub string_etag : Text
string_etag = chars "</string>"

abbrev pub datetime_tag : Text
datetime_tag = chars "<dateTime.iso8601>"

abbrev pub datetime_etag : Text
datetime_etag = chars "</dateTime.iso8601>"

abbrev pub base64_tag : Text
base64_tag = chars "<base64>"

abbrev pub base64_etag : Text
base64_etag = chars "</base64>"

abbrev pub array_tag : Text
array_tag = chars "<array>"

abbrev pub array_etag : Text
array_etag = chars "</array>"

abbrev pub data_tag : Text
data_tag = chars "<data>"

abbrev pub data_etag : Text
data_etag = chars "</data>"

-- An empty element.
abbrev pub data_ntag : Text
data_ntag = chars "<data/>"

abbrev pub struct_tag : Text
struct_tag = chars "<struct>"

abbrev pub struct_etag : Text
struct_etag = chars "</struct>"

abbrev pub struct_ntag : Text
struct_ntag = chars "<struct/>"

abbrev pub member_tag : Text
member_tag = chars "<member>"

abbrev pub member_etag : Text
member_etag = chars "</member>"

abbrev pub name_tag : Text
name_tag = chars "<name>"

abbrev pub name_etag : Text
name_etag = chars "</name>"
