-- ===== src/Net.antt =====
-- net.c: dialling and listening. The calls of the system and of the resolver are parameters.
pub mod Strtoul
pub mod Parseip
pub mod Decimal
pub mod RoundTrip
pub mod Dial
pub mod Sockets
