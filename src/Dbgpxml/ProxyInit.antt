-- ===== src/Dbgpxml/ProxyInit.antt =====
-- lib/dbgpxml/xml-proxyinit.go
use dbgp_tools.Base.{
  Bytes, codes, if◌then◌else◌, ◌≡◌, refl, Bool, true, false, Option, none, some, [], ◌∷◌, ◌++◌,
  arith,
}
use dbgp_tools.Base.Int.{ℤ, pos, is_int}
use dbgp_tools.Go.Decimal.{itoa}
use dbgp_tools.Go.Xml.{escape, element, header, bool_text}
use dbgp_tools.Go.Xml.Laws.{NoZero, escape-NoZero, element-NoZero, header-NoZero}
use dbgp_tools.Dbgpxml.Common.{
  is_valid_xml, xml_ns, xml_ns_xdebug, success_number, no_error, Paint, yellow, red, bright_red,
  green,
}

pub record ProxyInitError : Type 0 where
  pub id : Bytes
  pub message : Bytes

pub record ProxyInit : Type 0 where
  pub xml_ns : Bytes
  pub xml_ns_xdebug : Bytes
  pub success : ℤ
  pub ide_key : Bytes
  pub address : Bytes
  pub port : Bytes
  pub ssl : Bool
  pub error : Option ProxyInitError

-- NewProxyInit
unfoldable pub new_proxy_init : Bool → Bytes → Bytes → ℤ → Bool → Option ProxyInitError → ProxyInit
new_proxy_init success ide_key address port ssl init_error = record {
  xml_ns = xml_ns;
  xml_ns_xdebug = xml_ns_xdebug;
  success = success_number success;
  ide_key = ide_key;
  address = address;
  port = itoa port;
  ssl = ssl;
  error = init_error;
}

-- The nested element; `omitempty` leaves a nil pointer out.
error_element : Option ProxyInitError → Bytes
error_element none = []
error_element (some e) =
    element (codes "error") ((codes "id", e.id) ∷ [])
      (element (codes "message") [] (escape e.message))

-- proxyInit.AsXML(); writing to a bytes.Buffer does not fail, so the error is always nil
unfoldable pub as_xml : ProxyInit → Bytes
unfolding error_element
as_xml m =
    header
    ++ element (codes "proxyinit")
        ((codes "xmlns", m.xml_ns)
          ∷ (codes "xmlns:xdebug", m.xml_ns_xdebug)
          ∷ (codes "success", itoa m.success)
          ∷ (codes "idekey", m.ide_key)
          ∷ (codes "address", m.address)
          ∷ (codes "port", m.port)
          ∷ (codes "ssl", bool_text m.ssl)
          ∷ [])
        (error_element m.error)

-- init.IsSuccess()
unfoldable pub is_success : ProxyInit → Bool
is_success m = is_int m.success (pos 1)

unfoldable pub get_error_message : ProxyInit → Bytes
get_error_message m = elim m.error [ none ↦ no_error | some e ↦ e.message ]

abbrev pub expect_more_responses : ProxyInit → Bool
expect_more_responses m = false

abbrev pub should_close_connection : ProxyInit → Bool
should_close_connection m = false

-- proxyinit.String(); `none` is the panic of a nil pointer
unfoldable pub to_string : Paint → ProxyInit → Option Bytes
to_string paint m =
    if is_int m.success (pos 0)
    then elim m.error [
      | none ↦ none
      | some e ↦ some (
          paint true yellow (codes "proxyinit")
          ++ codes " | "
          ++ paint true red (codes "failure")
          ++ codes ": "
          ++ paint false bright_red e.message
          ++ codes "\n")
    ]
    else some (
        paint true yellow (codes "proxyinit")
        ++ codes " | "
        ++ paint true green (codes "success")
        ++ codes "\n")

-- The text of the message, and whatever follows it, passes for XML.
pub is_valid_xml-as_xml : (m : ProxyInit) (rest : Bytes) → is_valid_xml (as_xml m ++ rest) ≡ true
unfolding as_xml is_valid_xml
is_valid_xml-as_xml m rest = refl

error_element-NoZero : (e : Option ProxyInitError) → NoZero (error_element e)
unfolding error_element
error_element-NoZero none = tt
error_element-NoZero (some e) =
    element-NoZero (codes "error") ((codes "id", e.id) ∷ []) _ (omega arith) (omega arith)
      (element-NoZero (codes "message") [] _ (omega arith) tt (escape-NoZero e.message))

-- The text of the message holds no byte 0.
pub as_xml-NoZero : (m : ProxyInit) → NoZero (as_xml m)
unfolding as_xml
as_xml-NoZero m = header-NoZero _ (
    element-NoZero (codes "proxyinit") _ _ (omega arith) (omega arith)
      (error_element-NoZero m.error))
