-- ===== src/Dbgpxml/Response/Attributes.antt =====
-- lib/dbgpxml/xml-response.go: UnmarshalXML of Typemap, for the attributes of the element. The error of
-- Skip, which the code drops, is left out.
use dbgp_tools.Base.{Bytes, codes, ◌==◌, if◌then◌else◌, Bool, ◌&&◌, List, [], ◌∷◌, ◌≡◌, refl, arith}
use dbgp_tools.Dbgpxml.Response.{Typemap}

-- xml.Attr, with the two parts of its name
pub record Attr : Type 0 where
  pub space : Bytes
  pub local_name : Bytes
  pub value : Bytes

abbrev pub xsi : Bytes
xsi = codes "http://www.w3.org/2001/XMLSchema-instance"

abbrev pub is_named : Bytes → Bytes → Attr → Bool
is_named space local_name attr = attr.space == space && attr.local_name == local_name

-- The body of the loop, on the three variables.
read_attr : Attr → Typemap → Typemap
read_attr attr s =
    let named : Typemap =
      if is_named [] (codes "name") attr then record s { name = attr.value } else s in
    let typed : Typemap =
      if is_named [] (codes "type") attr then record named { type = attr.value } else named in
    if is_named xsi (codes "type") attr then record typed { xsi_type = attr.value } else typed

read_attrs : List Attr → Typemap → Typemap
unfolding read_attr
read_attrs [] s = s
read_attrs (attr ∷ attrs) s = read_attrs attrs (read_attr attr s)

-- s.UnmarshalXML(d, start)
unfoldable pub unmarshal_xml : List Attr → Typemap
unfolding read_attrs
unmarshal_xml attrs = read_attrs attrs (record { name = []; type = []; xsi_type = [] })

-- The value of the last attribute with a name.
abbrev pub last_named : Bytes → Bytes → Bytes → List Attr → Bytes
last_named space local_name start [] = start
last_named space local_name start (attr ∷ attrs) =
    last_named space local_name (if is_named space local_name attr then attr.value else start) attrs

abbrev last_of : Typemap → List Attr → Typemap
last_of s attrs = record {
  name = last_named [] (codes "name") s.name attrs;
  type = last_named [] (codes "type") s.type attrs;
  xsi_type = last_named xsi (codes "type") s.xsi_type attrs;
}

read_attr_lem : (attr : Attr) (s : Typemap) → read_attr attr s ≡ last_of s (attr ∷ [])
unfolding read_attr
read_attr_lem attr s = ground arith

read_attrs-last_of : (attrs : List Attr) (s : Typemap) → read_attrs attrs s ≡ last_of s attrs
unfolding read_attrs
read_attrs-last_of [] s = refl
read_attrs-last_of (attr ∷ attrs) s =
    rw (read_attr_lem attr s) (read_attrs-last_of attrs (last_of s (attr ∷ [])))

-- Of the attributes "name", "type" and the one of XML Schema that is called "type", in any order and
-- between any others, the last of each is kept, and the empty text where there is none.
pub unmarshal_xml_lem :
    (attrs : List Attr)
    → unmarshal_xml attrs ≡ record {
      name = last_named [] (codes "name") [] attrs;
      type = last_named [] (codes "type") [] attrs;
      xsi_type = last_named xsi (codes "type") [] attrs;
    }
unfolding unmarshal_xml
unmarshal_xml_lem attrs = read_attrs-last_of attrs (record { name = []; type = []; xsi_type = [] })
