-- ===== src/Url/Tests.antt =====
-- Some addresses, and the theorems at concrete inputs.
use ngx_lua_cpp.Prelude.{◌≡◌, refl, true, [], arith}
use ngx_lua_cpp.Prelude.Text.{codes}
use ngx_lua_cpp.Url.{
  starts_with, find, rfind, read_digits, skip_spaces, read_long, finish, parse_authority,
  parse_http_url,
}
use ngx_lua_cpp.Url.RoundTrip
use ngx_lua_cpp.Url.RoundTrip.{address, Decided}

program : Unit {0}
unfolding starts_with find rfind read_digits skip_spaces read_long finish parse_authority
    parse_http_url
program = tt

no_port :
    parse_http_url (codes "http://example.org")
    ≡ record { host = codes "example.org"; path = codes "/"; port = 80; ok = true; error = [] }
unfolding program
no_port = refl

negative_port : (parse_http_url (codes "http://h:-1/")).port ≡ 18446744073709551615
unfolding program
negative_port = refl

parse_http_url-address_example :
    parse_http_url (address (codes "h") 8080 (codes "/a"))
    ≡ record { host = codes "h"; path = codes "/a"; port = 8080; ok = true; error = [] }
parse_http_url-address_example =
    RoundTrip.parse_http_url-address (codes "h") (codes "a") 8080 (refl, tt) (omega arith)
      (omega arith) (omega arith)

parse_http_url-Decided_example : Decided (parse_http_url (codes "http://:1/"))
parse_http_url-Decided_example = RoundTrip.parse_http_url-Decided (codes "http://:1/")
