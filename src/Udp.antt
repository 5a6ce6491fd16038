-- ===== src/Udp.antt =====
-- UDP: `udp_listener_t`, `udp_listen`, `udp_recv`, `udp_reply`, `udp_send`, `udp_echo` and the
-- helpers `udp_sendto_impl` and `udp_roundtrip_impl` of src/ngx_lua_cpp.cpp, on a POSIX system.
-- What a system call returns is an argument. A step is what runs under a mutex.
pub mod Listener
pub mod Client
pub mod Thread
pub mod Waiting
pub mod Ports
pub mod Delivery
pub mod Resources
mod Tests
