-- ===== src/Dbgpxml/Init.antt =====
-- lib/dbgpxml/xml-init.go
use dbgp_tools.Base.{Bytes, codes, true, false, [], ◌∷◌, ◌++◌, Bool}
use dbgp_tools.Dbgpxml.Common.{Paint, plain, green, bright_yellow}

-- Engine, Author, URL and Copyright; the last three have a value only.
pub record Engine : Type 0 where
  pub version : Bytes
  pub value : Bytes

pub record Init : Type 0 where
  pub xml_ns : Bytes
  pub xml_ns_xdebug : Bytes
  pub file_uri : Bytes
  pub language : Bytes
  pub language_version : Bytes
  pub protocol_version : Bytes
  pub app_id : Bytes
  pub ide_key : Bytes
  pub cloud_user_id : Bytes
  pub engine : Engine
  pub author : Bytes
  pub url : Bytes
  pub copyright : Bytes

-- The dash in UTF-8.
abbrev dash : Bytes
dash = 0xe2 ∷ 0x80 ∷ 0x94 ∷ []

-- init.IsSuccess()
abbrev pub is_success : Init → Bool
is_success m = true

abbrev pub get_error_message : Init → Bytes
get_error_message m = []

abbrev pub expect_more_responses : Init → Bool
expect_more_responses m = false

abbrev pub should_close_connection : Init → Bool
should_close_connection m = false

-- init.String()
unfoldable pub to_string : Paint → Init → Bytes
to_string paint m =
    codes "DBGp/"
    ++ paint true green m.protocol_version
    ++ codes ": "
    ++ paint true plain (codes "Xdebug")
    ++ codes " "
    ++ paint true green m.engine.version
    ++ codes " "
    ++ dash
    ++ codes " For "
    ++ paint true plain m.language
    ++ codes " "
    ++ paint true green m.language_version
    ++ codes "\nDebugging "
    ++ paint true bright_yellow m.file_uri
    ++ codes " (ID: "
    ++ paint false bright_yellow m.app_id
    ++ codes "/"
    ++ paint false bright_yellow m.ide_key
    ++ codes ")"
