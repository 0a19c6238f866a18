-- ===== src/Dbgpxml/CloudInit.antt =====
-- lib/dbgpxml/xml-cloudinit.go
use dbgp_tools.Base.{
  Bytes, codes, All-append, if◌then◌else◌, ◌≡◌, refl, ◌≢◌, Bool, true, false, Option, none, some,
  [], ◌∷◌, ◌++◌, arith,
}
use dbgp_tools.Base.Int.{ℤ, pos, is_int}
use dbgp_tools.Go.Decimal.{itoa}
use dbgp_tools.Go.Xml.{escape, element, header, bool_text}
use dbgp_tools.Go.Xml.Laws.{NoZero, escape-NoZero, element-NoZero, header-NoZero}
use dbgp_tools.Dbgpxml.Common.{
  is_valid_xml, xml_ns, xml_ns_xdebug, success_number, no_error, Paint, yellow, red, bright_red,
  bright_yellow, bright_green,
}

pub record CloudInitError : Type 0 where
  pub id : Bytes
  pub message : Bytes

pub record AccountInfo : Type 0 where
  pub name : Bytes
  pub email : Bytes
  pub uid : Bytes
  pub active : Bool
  pub connections_remaining : ℤ
  pub connections_made : ℤ

pub record CloudInit : Type 0 where
  pub xml_ns : Bytes
  pub xml_ns_xdebug : Bytes
  pub success : ℤ
  pub user_id : Bytes
  pub error : Option CloudInitError
  pub account_info : Option AccountInfo

-- NewCloudInit; the last argument is what accountInfo.AsDbgpXmlType() returns, which is called only
-- if `account_info_valid`
unfoldable pub new_cloud_init :
    Bool → Bytes → Option CloudInitError → Bool → Option AccountInfo → CloudInit
new_cloud_init success user_id init_error account_info_valid account_info = record {
  xml_ns = xml_ns;
  xml_ns_xdebug = xml_ns_xdebug;
  success = success_number success;
  user_id = user_id;
  error = init_error;
  account_info = if account_info_valid then account_info else none;
}

-- The nested element; `omitempty` leaves a nil pointer out.
error_element : Option CloudInitError → Bytes
error_element none = []
error_element (some e) =
    element (codes "error") ((codes "id", e.id) ∷ [])
      (element (codes "message") [] (escape e.message))

-- The tag "name,omit" of `Email` names an element: `omit` is no option that the package knows.
account_element : Option AccountInfo → Bytes
account_element none = []
account_element (some a) =
    element (codes "accountInfo")
      ((codes "name", a.name)
        ∷ (codes "uid", a.uid)
        ∷ (codes "active", bool_text a.active)
        ∷ (codes "remaining", itoa a.connections_remaining)
        ∷ (codes "made", itoa a.connections_made)
        ∷ [])
      (element (codes "name") [] (escape a.email))

-- cloudInit.AsXML(); writing to a bytes.Buffer does not fail, so the error is always nil
unfoldable pub as_xml : CloudInit → Bytes
unfolding error_element account_element
as_xml m =
    header
    ++ element (codes "cloudinit")
        ((codes "xmlns", m.xml_ns)
          ∷ (codes "xmlns:xdebug", m.xml_ns_xdebug)
          ∷ (codes "success", itoa m.success)
          ∷ (codes "userid", m.user_id)
          ∷ [])
        (error_element m.error ++ account_element m.account_info)

-- init.IsSuccess()
unfoldable pub is_success : CloudInit → Bool
is_success m = is_int m.success (pos 1)

unfoldable pub get_error_message : CloudInit → Bytes
get_error_message m = elim m.error [ none ↦ no_error | some e ↦ e.message ]

abbrev pub expect_more_responses : CloudInit → Bool
expect_more_responses m = true

abbrev pub should_close_connection : CloudInit → Bool
should_close_connection m = false

account_active : Paint → AccountInfo → Bytes
account_active paint a =
    if a.active
    then paint true bright_green (codes "active")
    else paint true bright_red (codes "not active")

-- The state of the account, the connections that were made, and those that are left.
account_texts : Paint → Option AccountInfo → Bytes × Bytes × Bytes
unfolding account_active
account_texts paint none = (paint false bright_yellow (codes "unknown"), codes "??", codes "??")
account_texts paint (some a) =
    (account_active paint a, itoa a.connections_made, itoa a.connections_remaining)

connected_text : Paint → CloudInit → Bytes
unfolding account_texts
connected_text paint m =
    let (active, made, left) = account_texts paint m.account_info in
    paint true yellow (codes "cloudinit")
    ++ codes " | Connected as "
    ++ paint true yellow m.user_id
    ++ codes " | "
    ++ active
    ++ codes " | "
    ++ paint false bright_green made
    ++ codes " connections made | "
    ++ paint false bright_green left
    ++ codes " connections remaining\n\n"
    ++ paint true bright_green (codes "Waiting for incoming connection...")
    ++ codes "\n"

-- cloudinit.String(); `none` is the panic of a nil pointer
unfoldable pub to_string : Paint → CloudInit → Option Bytes
unfolding connected_text
to_string paint m =
    if is_int m.success (pos 0)
    then elim m.error [
      | none ↦ none
      | some e ↦ some (
          paint true yellow (codes "cloudinit")
          ++ codes " | "
          ++ paint true red (codes "failure")
          ++ codes ": "
          ++ paint false bright_red e.message
          ++ codes "\n")
    ]
    else some (connected_text paint m)

-- The text of the message, and whatever follows it, passes for XML.
pub is_valid_xml-as_xml : (m : CloudInit) (rest : Bytes) → is_valid_xml (as_xml m ++ rest) ≡ true
unfolding as_xml is_valid_xml
is_valid_xml-as_xml m rest = refl

error_element-NoZero : (e : Option CloudInitError) → NoZero (error_element e)
unfolding error_element
error_element-NoZero none = tt
error_element-NoZero (some e) =
    element-NoZero (codes "error") ((codes "id", e.id) ∷ []) _ (omega arith) (omega arith)
      (element-NoZero (codes "message") [] _ (omega arith) tt (escape-NoZero e.message))

account_element-NoZero : (a : Option AccountInfo) → NoZero (account_element a)
unfolding account_element
account_element-NoZero none = tt
account_element-NoZero (some a) =
    element-NoZero (codes "accountInfo") _ _ (omega arith) (omega arith)
      (element-NoZero (codes "name") [] _ (omega arith) tt (escape-NoZero a.email))

-- The text of the message holds no byte 0.
pub as_xml-NoZero : (m : CloudInit) → NoZero (as_xml m)
unfolding as_xml
as_xml-NoZero m = header-NoZero _ (
    element-NoZero (codes "cloudinit") _ _ (omega arith) (omega arith) (
      All-append (λ c. c ≢ 0) (error_element m.error) _ (error_element-NoZero m.error)
        (account_element-NoZero m.account_info)))
