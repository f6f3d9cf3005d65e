-- ===== src/UdpProxy.antt =====
-- python/udp_xor_proxy: a proxy that combines each packet between its clients and a remote address
-- with a key. The program for several clients is udp_xor_proxy_multi_cleanup.c, and
-- udp_xor_proxy_multi.c without the cleanup; udp_xor_proxy.c is for one.
pub mod Xor
pub mod Clients
pub mod Loop
pub mod Arguments
pub mod Single
mod Tests
