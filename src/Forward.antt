-- ===== src/Forward.antt =====
-- Local forwarding (src/local_forwarding): a channel for a local socket, and the copying between them.
pub mod Waited
mod Tests
use openrussh_client.Prelude.{
  ℕ, Text, codes, ◌≡◌, ◌≢◌, ◌⊎◌, inl, inr, refl, Option, none, some, Result, ok, err, M, pure,
  bind_pair, ◌>>=◌, on_err, map_err_pair, Ended, ended, ended_ok, ended_err,
}
use openrussh_client.Connect.{Connection}

-- `local_forwarding::Error`: `R` is the error of russh, and `I` that of input and output.
pub data ForwardError (R I : Type 0) : Type 0 where
  open_channel : R → ForwardError R I
  copy_bytes : I → ForwardError R I

-- `LocalForward`: the future that copies, which has not run yet.
pub record LocalForward (S I : Type 0) : Type 0 where
  pub fut : M S I (Unit {0})

-- `LocalForward::wait`
unfoldable pub wait : {S R I : Type 0} → LocalForward S I → M S (ForwardError R I) (Unit {0})
wait forward = on_err copy_bytes forward.fut

pub record Address : Type 0 where
  pub host : Text
  pub port : ℕ

-- A `SocketAddr` of either family; `ip().to_string()` is a parameter.
pub data SocketAddr (V4 V6 : Type 0) : Type 0 where
  v4 : V4 → ℕ → SocketAddr V4 V6
  v6 : V6 → ℕ → SocketAddr V4 V6

-- `From<SocketAddrV4>`, `From<SocketAddrV6>` and `From<SocketAddr>` for `Address`
abbrev pub from_v4 : {V4 : Type 0} → (V4 → Text) → V4 × ℕ → Address
from_v4 show (ip, port) = record { host = show ip; port = port }

abbrev pub from_v6 : {V6 : Type 0} → (V6 → Text) → V6 × ℕ → Address
from_v6 show (ip, port) = record { host = show ip; port = port }

abbrev pub from_addr : {V4 V6 : Type 0} → (V4 → Text) → (V6 → Text) → SocketAddr V4 V6 → Address
from_addr show_v4 show_v6 (v4 ip port) = record { host = show_v4 ip; port = port }
from_addr show_v4 show_v6 (v6 ip port) = record { host = show_v6 ip; port = port }

-- `From<(String, u16)>` and `From<(&str, u16)>` for `Address`
abbrev pub from_pair : Text × ℕ → Address
from_pair (host, port) = record { host = host; port = port }

-- `LocalForward::new` and `LocalForward::into_inner`
abbrev pub new : {S I : Type 0} → M S I (Unit {0}) → LocalForward S I
new fut = record { fut = fut }

abbrev pub into_inner : {S I : Type 0} → LocalForward S I → M S I (Unit {0})
into_inner forward = forward.fut

-- `LocalForward::spawn_wait`; `tokio::spawn`, which gives a handle `J`, is a parameter.
unfoldable pub spawn_wait :
    {S R I J : Type 0}
    → (M S (ForwardError R I) (Unit {0}) → S → J × S)
    → LocalForward S I
    → S
    → J × S
unfolding wait
spawn_wait spawn forward = spawn (wait forward)

-- The calls of russh and tokio: `H` is a handle, `C` a channel's stream, and `L` a local stream.
-- `copy_bidirectional` gives the two numbers of bytes.
pub record Channels (S H C L R I : Type 0) : Type 0 where
  pub channel_open_direct_tcpip : H → Text → ℕ → Text → ℕ → M S R C
  pub channel_open_direct_streamlocal : H → Text → M S R C
  pub copy_bidirectional : L → C → M S I (ℕ × ℕ)

-- Where the connection comes from, if the caller does not say.
abbrev pub originator_or : Option Address → Text × ℕ
originator_or none = (codes "127.0.0.1", 0)
originator_or (some addr) = (addr.host, addr.port)

module _ {S H C L R I : Type 0} (net : Channels S H C L R I) where
  abbrev pub copied : L → C → M S I (Unit {0})
  copied stream channel = net.copy_bidirectional stream channel >>= λ counts. pure tt

  unfoldable pub forward_tcp :
      H → Address → Option Address → L → M S (ForwardError R I) (LocalForward S I)
  forward_tcp handle connect_to originator socket = do
    channel ← on_err open_channel (
        net.channel_open_direct_tcpip handle connect_to.host connect_to.port
          (originator_or originator).0 (originator_or originator).1)
    pure (record { fut = copied socket channel })

  unfoldable pub forward_stream : H → Text → L → M S (ForwardError R I) (LocalForward S I)
  forward_stream handle remote_socket local_stream = do
    channel ← on_err open_channel (net.channel_open_direct_streamlocal handle remote_socket)
    pure (record { fut = copied local_stream channel })

  -- `forward_uds`
  unfoldable pub forward_uds : H → Text → L → M S (ForwardError R I) (LocalForward S I)
  unfolding forward_stream
  forward_uds handle remote_socket local_socket = forward_stream handle remote_socket local_socket

  -- `Connection::forward_local_tcp`
  unfoldable pub forward_local_tcp :
      Connection H → Address → Option Address → L → M S (ForwardError R I) (LocalForward S I)
  unfolding forward_tcp
  forward_local_tcp conn connect_to originator socket =
      forward_tcp conn.handle connect_to originator socket

  -- `Connection::forward_local_stream`
  unfoldable pub forward_local_stream :
      Connection H → Text → L → M S (ForwardError R I) (LocalForward S I)
  unfolding forward_stream
  forward_local_stream conn remote_socket local_stream =
      forward_stream conn.handle remote_socket local_stream

  -- `Connection::forward_local_uds`
  unfoldable pub forward_local_uds :
      Connection H → Text → L → M S (ForwardError R I) (LocalForward S I)
  unfolding forward_uds
  forward_local_uds conn remote_socket local_socket =
      forward_uds conn.handle remote_socket local_socket
