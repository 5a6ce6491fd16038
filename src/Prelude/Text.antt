-- ===== src/Prelude/Text.antt =====
-- `std::string` as the list of its bytes, and the printing of numbers.
use Prim.Native.Char.{code}
use Prim.Native.String.{String}
use ngx_lua_cpp.Prelude.{ℕ, zero, suc, ◌+◌, ◌/◌, ◌%◌, List, [], ◌∷◌, ◌==◌, if◌then◌else◌}

abbrev pub Bytes : Type 0
Bytes = List ℕ

-- A string literal of the source; all are ASCII.
abbrev pub codes : String → Bytes
codes String.[] = []
codes (String.◌∷◌ c s) = code c ∷ codes s

-- `std::to_string` of a `size_t`: the digits are found from the lowest one, twenty at most.
unfoldable pub decimal_loop : ℕ → ℕ → Bytes → Bytes
decimal_loop zero n digits = digits
decimal_loop (suc fuel) n digits =
    let digits' = (b'0' + n % 10) ∷ digits in
    let more = decimal_loop fuel (n / 10) digits' in if n / 10 == 0 then digits' else more

unfoldable pub decimal : ℕ → Bytes
decimal n = decimal_loop 20 n []
