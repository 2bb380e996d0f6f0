-- ===== src/KnownHosts/Channels.antt =====
-- What `KnownHostsHandler` answers to the channels that a server opens (src/known_hosts.rs).
use openrussh_client.Prelude.{ℕ, Text, ok, M}

-- The `server_channel_open` methods of russh's `Handler`, with what they are told.
pub data ChannelOpen : Type 0 where
  agent_forward session : ChannelOpen
  x11 : Text → ℕ → ChannelOpen
  direct_tcpip forwarded_tcpip : Text → ℕ → Text → ℕ → ChannelOpen
  direct_streamlocal forwarded_streamlocal : Text → ChannelOpen

-- `ChannelOpenHandle`: its calls change the state of the session. `F` is russh's `ChannelOpenFailure`.
pub record Replies (S F : Type 0) : Type 0 where
  pub administratively_prohibited : F
  pub reject : F → S → S

module _ {S F E : Type 0} (reply : Replies S F) where
  abbrev reject_all : M S E (Unit {0})
  reject_all s = (ok tt, reply.reject reply.administratively_prohibited s)

  unfoldable pub server_channel_open : ChannelOpen → M S E (Unit {0})
  server_channel_open agent_forward = reject_all
  server_channel_open (x11 address port) = reject_all
  server_channel_open session = reject_all
  server_channel_open (direct_tcpip host port address from) = reject_all
  server_channel_open (direct_streamlocal path) = reject_all
  server_channel_open (forwarded_tcpip host port address from) = reject_all
  server_channel_open (forwarded_streamlocal path) = reject_all
