-- ===== src/Http/Run.antt =====
-- One name that opens the http layer for evaluation.
use api_proxy.Text.{
  bytes, str_eq, has_prefix, contains, split, join, to_upper, to_lower, str_lt, replace, last_index,
  trim_prefix,
}
use api_proxy.Text.Maps.{lookup, insert, lookup_str}
use api_proxy.Text.Decimal.{decimal_int, decimal}
use api_proxy.Http.Header
use api_proxy.Http.Header.{canonical_key, is_token}
use api_proxy.Http.Query
use api_proxy.Http.Query.{parse_query, encode, escape, cut, unescape}
use api_proxy.Http.Media.{parse_media_type, trim_space}
use api_proxy.Http.Request.{parse_form, query}
use api_proxy.Http.Writer.{set_header, add_header, write_header, write}

unfoldable pub run_http : Unit {0}
unfolding bytes str_eq has_prefix contains split join to_upper to_lower str_lt replace last_index
    trim_prefix lookup insert lookup_str decimal_int decimal Header.get Header.set Header.add
    Header.values canonical_key is_token Query.get Query.add Query.all_of parse_query encode escape
    cut unescape parse_media_type trim_space parse_form query set_header add_header write_header
    write
run_http = tt
