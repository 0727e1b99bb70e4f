-- ===== src/Net/Sockets.antt =====
-- The socket stubs of kernel/src/net/tcp.rs and udp.rs: they hold ports, and every call on them
-- fails with a text.
use compute_kernel.Common.{ℕ, List, codes}

pub data TcpState : Type 0 where
  closed listen syn_sent syn_received established fin_wait1 fin_wait2 close_wait closing last_ack
        time_wait :
      TcpState

pub record TcpSocket : Type 0 where
  pub state : TcpState
  pub local_port : ℕ
  pub remote_port : ℕ

pub record UdpSocket : Type 0 where
  pub local_port : ℕ

-- `Result<T, &'static str>`.
pub data SocketResult (A : Type 0) : Type 0 where
  ok : A → SocketResult A
  err : List ℕ → SocketResult A

abbrev pub tcp_new : ℕ → TcpSocket
tcp_new local_port = record { state = closed; local_port = local_port; remote_port = 0 }

abbrev pub tcp_connect : TcpSocket → ℕ → SocketResult (Unit {0}) × TcpSocket
tcp_connect s remote_port = (err (codes "TCP connect not yet implemented"), s)

abbrev pub tcp_send : TcpSocket → List ℕ → SocketResult ℕ
tcp_send s bytes = err (codes "TCP send not yet implemented")

abbrev pub tcp_recv : TcpSocket → List ℕ → SocketResult ℕ
tcp_recv s buf = err (codes "TCP recv not yet implemented")

abbrev pub udp_bind : ℕ → UdpSocket
udp_bind port = record { local_port = port }

abbrev pub udp_send_to : UdpSocket → List ℕ → ℕ → SocketResult ℕ
udp_send_to s bytes dst_port = err (codes "UDP send_to not yet implemented")

abbrev pub udp_recv_from : UdpSocket → List ℕ → SocketResult (ℕ × ℕ)
udp_recv_from s buf = err (codes "UDP recv_from not yet implemented")
