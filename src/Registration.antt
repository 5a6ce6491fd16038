-- ===== src/Registration.antt =====
-- What Lua code finds in the library: `lua_registar` of src/ngx_lua_cpp.cpp, and the traits at the end
-- of src/ngx_lua_cpp.h that wrap the coroutines.
mod Tests
use ngx_lua_cpp.Prelude.{Bool, true, false, List, [], ◌∷◌, map, if◌then◌else◌}
use ngx_lua_cpp.Prelude.Text.{Bytes, codes}

-- What a method returns: a value (or nothing), or a coroutine, with or without a value at its end.
pub data ReturnType : Type 0 where
  no_coroutine : ReturnType
  void_coroutine : ReturnType
  value_coroutine : ReturnType

unfoldable pub is_coroutine_non_void_return : ReturnType → Bool
is_coroutine_non_void_return no_coroutine = false
is_coroutine_non_void_return void_coroutine = false
is_coroutine_non_void_return value_coroutine = true

-- What is put on Lua's stack for a method: the method, or what the wrapper in the registry makes of it.
pub data Pushed : Type 0 where
  plain : Pushed
  wrapped : Pushed

unfoldable pub lua_tostack : ReturnType → Pushed
unfolding is_coroutine_non_void_return
lua_tostack return_type = if is_coroutine_non_void_return return_type then wrapped else plain

abbrev pub methods : List (Bytes × ReturnType)
methods =
    (codes "new", no_coroutine)
    ∷ (codes "start", no_coroutine)
    ∷ (codes "stop", no_coroutine)
    ∷ (codes "is_running", no_coroutine)
    ∷ (codes "get_hardware_concurrency", no_coroutine)
    ∷ (codes "sleep", value_coroutine)
    ∷ (codes "mandelbrot", value_coroutine)
    ∷ (codes "fetch", value_coroutine)
    ∷ (codes "udp_echo", value_coroutine)
    ∷ (codes "udp_listen", no_coroutine)
    ∷ (codes "udp_recv", value_coroutine)
    ∷ (codes "udp_send", value_coroutine)
    ∷ (codes "udp_reply", value_coroutine)
    ∷ (codes "sha256", no_coroutine)
    ∷ (codes "hmac_sha256", no_coroutine)
    ∷ (codes "hmac_sha256_raw", no_coroutine)
    ∷ (codes "base64url_encode", no_coroutine)
    ∷ (codes "base64url_decode", no_coroutine)
    ∷ (codes "random_hex", no_coroutine)
    ∷ (codes "pub", no_coroutine)
    ∷ (codes "events", no_coroutine)
    ∷ (codes "cache_set", no_coroutine)
    ∷ (codes "cache_get", no_coroutine)
    ∷ (codes "cache_stats", no_coroutine)
    ∷ (codes "file_sha256", value_coroutine)
    ∷ (codes "log_analyze", value_coroutine)
    ∷ (codes "job_submit", no_coroutine)
    ∷ (codes "job_query", no_coroutine)
    ∷ (codes "job_list", no_coroutine)
    ∷ (codes "__async_worker__", no_coroutine)
    ∷ []

unfoldable pub lua_registar : List (Bytes × Pushed)
unfolding lua_tostack
lua_registar = map (λ method. (method.0, lua_tostack method.1)) methods
