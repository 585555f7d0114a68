-- ===== src/Shared/Tests.antt =====
-- The theorems on the shared code at one reply and one query.
use advanced_node.Common.{String, ◌≡◌, refl, none, some, arith}
use advanced_node.Common.Int.{pos, negsuc, ◌≤ℤ◌}
use advanced_node.Shared.Reply.{Payload}
use advanced_node.Shared.Text.{parse_int, is_space, trim}
use advanced_node.Shared.Query.{
  Raw, Defaults, ListQuery, SortOrder, asc, parse_list_query, or_default, IsClean,
  parse_list_query-bounds,
}
use advanced_node.Shared.QueryText.{IsServable, raw_of, parse_list_query-raw_of}

minus_twelve : parse_int "  -12px" ≡ some (negsuc 11)
unfolding parse_int is_space
minus_twelve = refl

not_a_number : parse_int "px" ≡ none
unfolding parse_int is_space
not_a_number = refl

abbrev blank : Payload String
blank = record { message = some ""; content = none; error = none }

abbrev raw : Raw
raw = record {
  page = some "-3";
  limit = some "500";
  sort_by = some " name ";
  sort_order = some "asc";
  q = some "   ";
}

abbrev defaults : Defaults
defaults = record { page = none; limit = none; max_limit = none }

parsed : parse_list_query raw defaults ≡ record {
  page = pos 1;
  limit = pos 100;
  sort_by = some "name";
  sort_order = SortOrder.asc;
  q = none;
}
unfolding parse_list_query parse_int trim is_space
parsed = refl

parse_list_query-bounds_example :
    (pos 1 ≤ℤ (parse_list_query raw defaults).page)
    × (pos 1 ≤ℤ (parse_list_query raw defaults).limit)
    × ((parse_list_query raw defaults).limit ≤ℤ or_default defaults.max_limit (pos 100))
    × IsClean (parse_list_query raw defaults).sort_by
    × IsClean (parse_list_query raw defaults).q
parse_list_query-bounds_example = parse_list_query-bounds raw defaults (omega arith)

abbrev wanted : ListQuery
wanted = record { page = pos 3; limit = pos 50; sort_by = some "price"; sort_order = asc; q = none }

wanted-IsServable : IsServable (pos 100) wanted
unfolding trim is_space
wanted-IsServable = record {
  page = omega arith;
  limit = omega arith;
  limit_max = omega arith;
  sort_by = (refl, refl);
  text = tt;
}

parse_list_query-raw_of_example :
    parse_list_query (raw_of wanted) (record { page = none; limit = none; max_limit = none })
    ≡ wanted
parse_list_query-raw_of_example =
    parse_list_query-raw_of wanted (record { page = none; limit = none; max_limit = none })
      wanted-IsServable
