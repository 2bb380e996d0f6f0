-- ===== src/Forward/Waited.antt =====
-- What the forwarding of a local socket does, up to its end (src/local_forwarding).
use openrussh_client.Prelude.{
  ℕ, Text, codes, ◌≡◌, refl, none, some, Result, ok, err, M, pure, bind_pair, ◌>>=◌, map_err_pair,
  ended, ended_ok, ended_err,
}
use openrussh_client.Connect.{Connection}
use openrussh_client.Forward.{
  ForwardError, open_channel, copy_bytes, LocalForward, wait, Address, Channels, copied,
  forward_local_tcp, forward_local_stream, forward_local_uds,
}

module _ {S H C L R I : Type 0} (net : Channels S H C L R I) where
  -- How opening a channel and then copying end: no channel and nothing copied, or what was copied,
  -- with an error or without.
  abbrev pub Forwarded : L → Result R C × S → Result (ForwardError R I) (Unit {0}) × S → Type 0
  Forwarded local_end opened (ok u, v) =
      (c : C) × (t : S) × (counts : ℕ × ℕ) × (opened ≡ (ok c, t))
      × (net.copy_bidirectional local_end c t ≡ (ok counts, v))
  Forwarded local_end opened (err (open_channel e), v) = opened ≡ (err e, v)
  Forwarded local_end opened (err (copy_bytes e), v) =
      (c : C) × (t : S) × (opened ≡ (ok c, t)) × (net.copy_bidirectional local_end c t ≡ (err e, v))

  -- What a forwarding makes of the opened channel, and what waiting for it does then.
  forward_of : L → Result R C × S → Result (ForwardError R I) (LocalForward S I) × S
  forward_of local_end opened =
      bind_pair (λ channel. pure (record { fut = copied net local_end channel }))
        (map_err_pair open_channel opened)

  end_of : L → Result R C × S → Result (ForwardError R I) (Unit {0}) × S
  unfolding wait forward_of
  end_of local_end opened = bind_pair wait (forward_of local_end opened)

  forward_of-opened : (l : L) (opened : Result R C × S) → (forward_of l opened).1 ≡ opened.1
  unfolding forward_of
  forward_of-opened l (ok c, t) = refl
  forward_of-opened l (err e, t) = refl

  end_of-Forwarded : (l : L) (opened : Result R C × S) → Forwarded l opened (end_of l opened)
  unfolding end_of forward_of wait
  end_of-Forwarded l (err e, t) = refl
  end_of-Forwarded l (ok c, t) = elim (ended (net.copy_bidirectional l c t)) [
    | ended_ok counts v e ↦ rw e (c, t, counts, refl, e)
    | ended_err i v e ↦ rw e (c, t, refl, e)
  ]

  -- The forwarding by itself only opens the channel, and waiting for it ends as `Forwarded` says.
  abbrev pub Forwards : L → M S R C → M S (ForwardError R I) (LocalForward S I) → S → Type 0
  Forwards local_end opening forward s =
      ((forward s).1 ≡ (opening s).1) × Forwarded local_end (opening s) ((forward >>= wait) s)

  opened-Forwards :
      (opening : M S R C) (l : L) (s : S) → Forwards l opening (λ t. forward_of l (opening t)) s
  unfolding forward_of end_of wait
  opened-Forwards opening l s = (forward_of-opened l (opening s), end_of-Forwarded l (opening s))

  -- Forwarding a local socket over a connection, and then waiting for it. Over TCP the channel is
  -- asked for to the host and port of the given address, as from 127.0.0.1 and port 0 where no
  -- originator is given, and else as from the host and port of the originator; to a remote socket
  -- it is asked for to its path, for a stream and a Unix socket alike. Up to the waiting only the
  -- channel has been opened. Then either it could not be opened, and nothing was copied, or the
  -- local end and this channel were copied to one another, from the state in which opening it
  -- ended, and an error is that of the copying.
  pub forward-Forwards :
      (conn : Connection H) (connect_to originator : Address) (remote_socket : Text) (l : L) (s : S)
      → Forwards l
          (net.channel_open_direct_tcpip conn.handle connect_to.host connect_to.port
            (codes "127.0.0.1")
            0)
          (forward_local_tcp net conn connect_to none l)
          s
        × Forwards l
            (net.channel_open_direct_tcpip conn.handle connect_to.host connect_to.port
              originator.host originator.port)
            (forward_local_tcp net conn connect_to (some originator) l)
            s
        × Forwards l
            (net.channel_open_direct_streamlocal conn.handle remote_socket)
            (forward_local_stream net conn remote_socket l)
            s
        × Forwards l
            (net.channel_open_direct_streamlocal conn.handle remote_socket)
            (forward_local_uds net conn remote_socket l)
            s
  unfolding forward_local_tcp forward_local_stream forward_local_uds forward_of
  forward-Forwards conn connect_to originator remote_socket l s =
      let tcp : Text → ℕ → M S R C =
        net.channel_open_direct_tcpip conn.handle connect_to.host connect_to.port in
      let stream = net.channel_open_direct_streamlocal conn.handle remote_socket in
      (
        opened-Forwards (tcp (codes "127.0.0.1") 0) l s,
        opened-Forwards (tcp originator.host originator.port) l s,
        opened-Forwards stream l s,
        opened-Forwards stream l s,
      )
