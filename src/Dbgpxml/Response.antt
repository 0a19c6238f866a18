-- ===== src/Dbgpxml/Response.antt =====
-- lib/dbgpxml/xml-response.go: the structs and the methods that steer the connection. Of a struct the
-- field XMLName is left out.
pub mod Property
pub mod Format
pub mod Attributes
pub mod Tests
use dbgp_tools.Base.{Bytes, codes, ◌==◌, Bool, ◌||◌, Option, none, some, List}
use dbgp_tools.Base.Int.{ℤ, pos, is_int}
use dbgp_tools.Dbgpxml.Common.{no_error}
use dbgp_tools.Dbgpxml.Breakpoint.{Breakpoint}
use dbgp_tools.Dbgpxml.Response.Property.{Properties}

pub record Message : Type 0 where
  pub filename : Bytes
  pub line_no : ℤ

pub record Stack : Type 0 where
  pub where_ : Bytes
  pub level : ℤ
  pub type : Bytes
  pub filename : Bytes
  pub line_no : ℤ

-- Error, with the text of its ErrorMessage.
pub record Error : Type 0 where
  pub code : ℤ
  pub message : Bytes

pub record Context : Type 0 where
  pub id : ℤ
  pub name : Bytes

pub record Typemap : Type 0 where
  pub name : Bytes
  pub type : Bytes
  pub xsi_type : Bytes

pub record Response : Type 0 where
  pub xml_ns : Bytes
  pub xml_ns_xdebug : Bytes
  pub tid : Bytes
  pub id : Bytes
  pub command : Bytes
  pub status : Bytes
  pub success : ℤ
  pub supported : ℤ
  pub feature : Bytes
  pub feature_name : Bytes
  pub reason : Bytes
  pub encoding : Bytes
  pub stack : List Stack
  pub contexts : List Context
  pub typemap : List Typemap
  pub message : Message
  pub error : Option Error
  pub breakpoints : List Breakpoint
  pub property : Properties
  pub value : Bytes
  pub last_source_begin : ℤ

-- response.IsSuccess()
unfoldable pub is_success : Response → Bool
is_success m = is_int m.success (pos 1) || m.command == codes "detach"

unfoldable pub get_error_message : Response → Bytes
get_error_message m = elim m.error [ none ↦ no_error | some e ↦ e.message ]

unfoldable pub expect_more_responses : Response → Bool
expect_more_responses m = m.command == codes "break"

unfoldable pub should_close_connection : Response → Bool
should_close_connection m = m.command == codes "detach" || m.command == codes "stop"
