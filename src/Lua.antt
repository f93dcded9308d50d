-- ===== src/Lua.antt =====
-- v1.0.0/lua/easy_lua.c: the functions that a Lua program calls.
pub mod Hex
pub mod Crypt
pub mod Bindings
mod Tests
