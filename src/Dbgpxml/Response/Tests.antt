-- ===== src/Dbgpxml/Response/Tests.antt =====
-- A property with a child that has a child, printed without colours.
use dbgp_tools.Base.{Bytes, codes, ◌≡◌, refl, ◌==◌, true, false, [], ◌++◌, Bool, ℕ}
use dbgp_tools.Base.Int.{pos}
use dbgp_tools.Dbgpxml.Common.{Paint}
use dbgp_tools.Dbgpxml.Breakpoint.{Base64}
use dbgp_tools.Dbgpxml.Response.Property.{
  PropertyInfo, Property, property, nil, cons, format_property,
}
use dbgp_tools.Dbgpxml.Response.Property.Layout.{rows, print_rows, format_property-rows}

abbrev uncoloured : Paint
uncoloured bold colour text = text

abbrev kept : Base64
kept text = text

abbrev info : Bytes → Bytes → Bool → ℕ → Bytes → PropertyInfo
info name type has_children num_children value = record {
  name = name;
  fullname = name;
  type = type;
  classname = [];
  has_children = has_children;
  num_children = pos num_children;
  page = pos 0;
  page_size = pos 100;
  encoding = [];
  value = value;
  ext_name = [];
  ext_full_name = [];
  ext_classname = [];
}

abbrev number : Property
number = property (info (codes "n") (codes "int") false 0 (codes "1")) nil

abbrev inner : Property
inner = property (info (codes "inner") (codes "array") true 1 []) (cons number nil)

abbrev outer : Property
outer = property (info (codes "outer") (codes "array") true 1 []) (cons inner nil)

format_property-rows_example :
    format_property uncoloured kept (codes "9") [] outer
    ≡ print_rows uncoloured kept (codes "9") (rows uncoloured kept 0 outer)
format_property-rows_example = format_property-rows uncoloured kept (codes "9") outer

-- The row of the number starts two columns further to the right than the others.
shifted :
    format_property uncoloured kept (codes "9") [] outer
    ≡ codes "9 | array outer: [ \n9 |   array inner: [ \n"
      ++ codes "  9 |     int n: 1\n9 |   ]\n9 | ]\n"
unfolding format_property ◌==◌
shifted = refl
