-- ===== src/Fetch/Tests.antt =====
-- Some requests, and the theorems at concrete inputs.
use ngx_lua_cpp.Prelude.{ℕ, ◌≡◌, refl, inl, inr, true, some, [], ◌∷◌, replicate, take, arith}
use ngx_lua_cpp.Prelude.Text.{Bytes, codes}
use ngx_lua_cpp.Prelude.Double.{whole_double}
use ngx_lua_cpp.Url.{HttpUrl}
use ngx_lua_cpp.Fetch.{Round, Answers, read_body, answered, http_get_windows}
use ngx_lua_cpp.Fetch.Requests
use ngx_lua_cpp.Fetch.Requests.{left_open, Reports}
use ngx_lua_cpp.Fetch.FanIn

abbrev page : HttpUrl
page = record { host = codes "h"; path = codes "/"; port = 80; ok = true; error = [] }

-- A server that has as many bytes as are wanted, in rounds of three.
abbrev zeros : ℕ → Bytes
zeros n = take n (replicate 3 0)

abbrev seven_zeros : Bytes
seven_zeros = replicate 7 0

abbrev three_bytes : Round
three_bytes = (3, λ want. some (zeros want))

abbrev answers : Answers
answers = record {
  opens = true;
  connects = true;
  opens_request = true;
  sends = true;
  receives = true;
  status = some 200;
  rounds = three_bytes ∷ three_bytes ∷ [];
}

cut_off : (http_get_windows whole_double answers 0 5 page 5).0.bytes ≡ 5
unfolding http_get_windows answered read_body
cut_off = refl

left_open-http_get_windows_example :
    left_open (http_get_windows whole_double answers 0 5 page 5).1 [] ≡ some []
left_open-http_get_windows_example =
    Requests.left_open-http_get_windows whole_double answers 0 5 page 5

http_get_windows_bytes_example :
    Reports whole_double 5 seven_zeros (http_get_windows whole_double answers 0 5 page 5).0
http_get_windows_bytes_example =
    Requests.http_get_windows_bytes whole_double answers 0 5 page 5 seven_zeros (
      inr (
        inr (
          3,
          omega arith,
          omega arith,
          omega arith,
          refl,
          inr (inr (2, omega arith, omega arith, omega arith, refl, inl refl)),
        )))
