-- ===== src/Registration/Tests.antt =====
-- Which methods are wrapped.
use ngx_lua_cpp.Prelude.{◌≡◌, refl, List, [], ◌∷◌}
use ngx_lua_cpp.Prelude.Text.{Bytes, codes}
use ngx_lua_cpp.Registration.{Pushed, plain, wrapped, lua_registar}

abbrev wrapped_names : List (Bytes × Pushed) → List Bytes
wrapped_names [] = []
wrapped_names ((name, plain) ∷ methods) = wrapped_names methods
wrapped_names ((name, wrapped) ∷ methods) = name ∷ wrapped_names methods

coroutines_are_wrapped :
    wrapped_names lua_registar
    ≡ codes "sleep"
      ∷ codes "mandelbrot"
      ∷ codes "fetch"
      ∷ codes "udp_echo"
      ∷ codes "udp_recv"
      ∷ codes "udp_send"
      ∷ codes "udp_reply"
      ∷ codes "file_sha256"
      ∷ codes "log_analyze"
      ∷ []
unfolding lua_registar
coroutines_are_wrapped = refl
