-- ===== src/Forward/Tests.antt =====
-- A server that opens channels to port 80 only (src/local_forwarding).
use openrussh_client.Prelude.{
  ℕ, Text, codes, List, [], ◌∷◌, ◌++◌, ◌≡◌, refl, none, some, ok, err, if◌then◌else◌, ◌==◌, ◌>>=◌,
}
use openrussh_client.Config.{for_shell}
use openrussh_client.Connect.{Connection}
use openrussh_client.Forward.{
  Channels, open_channel, wait, forward_local_tcp, forward_local_stream, forward_local_uds,
}
use openrussh_client.Forward.Waited.{Forwards, forward-Forwards}

-- The state is what was done; a copy of the local end `bad` fails.
abbrev channels : Channels (List Text) (Unit {0}) Text ℕ Text Text
channels = record {
  channel_open_direct_tcpip = λ h host port from from_port s.
      (if port == 80 then ok host else err (codes "closed"), s ++ from ∷ []);
  channel_open_direct_streamlocal = λ h path s. (ok path, s ++ path ∷ []);
  copy_bidirectional = λ l c s. (if l == 0 then err (codes "bad") else ok (l, l), s ++ c ∷ []);
}

abbrev connection : Connection (Unit {0})
connection = record { handle = tt; tty = for_shell }

to_port_80 :
    (forward_local_tcp channels connection (record { host = codes "a"; port = 80 }) none 3 >>= wait)
      []
    ≡ (ok tt, codes "127.0.0.1" ∷ codes "a" ∷ [])
unfolding forward_local_tcp wait
to_port_80 = refl

to_port_81 :
    (forward_local_tcp channels connection (record { host = codes "a"; port = 81 }) none 3 >>= wait)
      []
    ≡ (err (open_channel (codes "closed")), codes "127.0.0.1" ∷ [])
unfolding forward_local_tcp wait
to_port_81 = refl

forward-Forwards_example :
    Forwards channels 3
      (channels.channel_open_direct_tcpip tt (codes "a") 80 (codes "127.0.0.1") 0)
      (forward_local_tcp channels connection (record { host = codes "a"; port = 80 }) none 3)
      []
    × Forwards channels 3
        (channels.channel_open_direct_tcpip tt (codes "a") 80 (codes "b") 1234)
        (forward_local_tcp channels connection
          (record { host = codes "a"; port = 80 })
          (some (record { host = codes "b"; port = 1234 }))
          3)
        []
    × Forwards channels 3
        (channels.channel_open_direct_streamlocal tt (codes "/s"))
        (forward_local_stream channels connection (codes "/s") 3)
        []
    × Forwards channels 3
        (channels.channel_open_direct_streamlocal tt (codes "/s"))
        (forward_local_uds channels connection (codes "/s") 3)
        []
forward-Forwards_example =
    forward-Forwards channels connection (record { host = codes "a"; port = 80 })
      (record { host = codes "b"; port = 1234 }) (codes "/s") 3 []
