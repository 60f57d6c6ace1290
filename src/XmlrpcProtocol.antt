-- ===== src/XmlrpcProtocol.antt =====
-- src/xmlrpc_protocol.c: XMLRPC messages over HTTP. A dynamic string that is read is its text here; the
-- one that a message is written to has its capacity too (DynString/Texts).
pub mod Generate
pub mod Parse
pub mod Padded
pub mod Header
pub mod Assembled
pub mod Framing
mod Tests
use cros.Common.{[]}
use cros.Common.Decimal.{chars}
use cros.XmlrpcParams.{Text}

pub data MessageType : Type 0 where
  request response unknown_message : MessageType

pub data ParserState : Type 0 where
  parser_error parser_incomplete parser_done : ParserState

abbrev pub version : Text
version = chars "Custom XMLRPC"

abbrev pub message_begin : Text
message_begin = chars "<?xml version=\"1.0\"?>"

abbrev pub message_end : Text
message_end = []

abbrev pub request_begin : Text
request_begin = chars "<methodCall>"

abbrev pub request_end : Text
request_end = chars "</methodCall>"

abbrev pub method_name_begin : Text
method_name_begin = chars "<methodName>"

abbrev pub method_name_end : Text
method_name_end = chars "</methodName>"

abbrev pub response_begin : Text
response_begin = chars "<methodResponse>"

abbrev pub response_end : Text
response_end = chars "</methodResponse>"

abbrev pub params_tag : Text
params_tag = chars "<params>"

abbrev pub params_etag : Text
params_etag = chars "</params>"

abbrev pub param_tag : Text
param_tag = chars "<param>"

abbrev pub param_etag : Text
param_etag = chars "</param>"

abbrev pub fault_tag : Text
fault_tag = chars "<fault>"

abbrev pub fault_etag : Text
fault_etag = chars "</fault>"
