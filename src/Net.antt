-- ===== src/Net.antt =====
-- The network stack's wire formats: kernel/src/net/. Bytes are numbers below 256, a slice is a list,
-- and multi-byte fields are big-endian. Reads at a fixed index stand behind the code's length test,
-- so they are written `get_or data i 0`.
pub mod Wire
pub mod Ethernet
pub mod Udp
pub mod Ip
pub mod Tcp
pub mod Sockets
mod Tests
