-- ===== src/Hook/Setup/Tests.antt =====
-- A host with the symbols of nginx.
use ngx_lua_cpp.Prelude.{ℕ, ◌≡◌, ◌⊎◌, refl, Option, none, some}
use ngx_lua_cpp.Prelude.Text.{Bytes, codes}
use ngx_lua_cpp.Hook.{Shared}
use ngx_lua_cpp.Hook.Setup.{Memory, Installation, nginx_own, install}
use ngx_lua_cpp.Hook.Setup.Installed
use ngx_lua_cpp.Hook.Setup.Installed.{IsInstalled}

abbrev nginx : Memory
nginx p = record { notify = none; process_events = nginx_own 3 }

abbrev found : Bytes → Option ℕ
found name = some 9

-- An instance that does nothing.
abbrev idle : ℕ → Shared ℕ → Shared ℕ
idle p w = w

install-IsInstalled_example :
    ((found (codes "ngx_event_actions") ≡ none) × (install found nginx ≡ none))
    ⊎ ((p : ℕ) × (i : Installation) × (found (codes "ngx_event_actions") ≡ some p)
        × (install found nginx ≡ some i)
        × IsInstalled idle nginx p 3 i)
install-IsInstalled_example = Installed.install-IsInstalled idle found nginx 3 (λ p h. refl)
