-- ===== src/Connect/Steps.antt =====
-- One connection of the way to a target (src/connect.rs): what is asked of the network, in which order.
use openrussh_client.Prelude.{
  codes, List, ◌≡◌, ◌⊎◌, inl, inr, refl, Option, none, some, Result, ok, err, M, ended, ended_ok,
  ended_err, bind_pair, map_err_pair,
}
use openrussh_client.Config.{Host, BastionItem}
use openrussh_client.Auth.{AuthMethod, from_config}
use openrussh_client.Auth.{iter as iter_methods}
use openrussh_client.Auth.Reply.{AuthError, Tried, success, failure}
use openrussh_client.Auth.Loop.{Fail, DecidedBy, Outcome, try_each-Outcome}
use openrussh_client.Auth.Session.{auth as perform}
use openrussh_client.Connect.{
  Context, ConnectError, auth_error, auth_failure, establish, proxy_jump, make_error, cast, Network,
  auth, connect, connect_stream, first_handle, next_handle, is_authenticated,
}

module _ {S K O H C A E R F : Type 0} (net : Network S K O H C A E R)
    (make_handler : Host → M S F (Context K O)) where
  abbrev pub methods_of : Host → List AuthMethod
  methods_of x = iter_methods (from_config net.files x.auth)

  abbrev pub attempt : Host → H → AuthMethod → S → Tried × S
  attempt x h = perform (net.world h) x.dest.user

  -- A connection to the host, directly or through a channel of another connection.
  pub data Opened : Option H → Host → S → H → S → Type 0 where
    directly :
        {x : Host}
        → {s : S} → (ctx : Context K O) → (t : S) → {h : H} → {u : S}
        → make_handler x s ≡ (ok ctx, t)
        → net.connect_tcp ctx x.dest.name x.dest.port t ≡ (ok h, u)
        → Opened none x s h u
    through :
        {g : H}
        → {x : Host} → {s : S} → (c : C) → (t : S) → (ctx : Context K O) → (u : S) → {h : H}
        → {v : S}
        → net.channel_open_direct_tcpip g x.dest.name x.dest.port (codes "127.0.0.1") 0 s
          ≡ (ok c, t)
        → make_handler x t ≡ (ok ctx, u)
        → net.connect_over ctx c u ≡ (ok h, v)
        → Opened (some g) x s h v

  -- There is no connection to the host.
  pub data Unopened : Option H → Host → S → ConnectError E R F → S → Type 0 where
    no_context :
        {x : Host}
        → {s : S} → {e : F} → {t : S} → make_handler x s ≡ (err e, t)
        → Unopened none x s (make_error e) t
    no_server :
        {x : Host}
        → {s : S} → (ctx : Context K O) → (t : S) → {e : E} → {u : S}
        → make_handler x s ≡ (ok ctx, t)
        → net.connect_tcp ctx x.dest.name x.dest.port t ≡ (err e, u)
        → Unopened none x s (establish e) u
    no_channel :
        {g : H}
        → {x : Host} → {s : S} → {e : R} → {t : S}
        → net.channel_open_direct_tcpip g x.dest.name x.dest.port (codes "127.0.0.1") 0 s
          ≡ (err e, t)
        → Unopened (some g) x s (proxy_jump e) t
    no_context_through :
        {g : H}
        → {x : Host} → {s : S} → (c : C) → (t : S) → {e : F} → {u : S}
        → net.channel_open_direct_tcpip g x.dest.name x.dest.port (codes "127.0.0.1") 0 s
          ≡ (ok c, t)
        → make_handler x t ≡ (err e, u)
        → Unopened (some g) x s (make_error e) u
    no_server_through :
        {g : H}
        → {x : Host} → {s : S} → (c : C) → (t : S) → (ctx : Context K O) → (u : S) → {e : E}
        → {v : S}
        → net.channel_open_direct_tcpip g x.dest.name x.dest.port (codes "127.0.0.1") 0 s
          ≡ (ok c, t)
        → make_handler x t ≡ (ok ctx, u)
        → net.connect_over ctx c u ≡ (err e, v)
        → Unopened (some g) x s (establish e) v

  -- A method of the host's configuration succeeds, behind methods that fail.
  abbrev pub LetIn : Host → H → S → S → Type 0
  LetIn x h s t = DecidedBy (attempt x h) (methods_of x) s (ok success, t)

  -- All methods fail, or one has an error behind methods that fail.
  abbrev pub Refused : Host → H → S → ConnectError E R F → S → Type 0
  Refused x h s e t =
      ((e ≡ auth_failure) × Fail (attempt x h) (methods_of x) s t)
      ⊎ ((a : AuthError) × (e ≡ auth_error a) × DecidedBy (attempt x h) (methods_of x) s (err a, t))

  abbrev pub Step : Option H → Host → S → Result (ConnectError E R F) H × S → Type 0
  Step at x s (ok h, u) = (t : S) × Opened at x s h t × LetIn x h t u
  Step at x s (err e, u) =
      Unopened at x s e u ⊎ ((h : H) × (t : S) × Opened at x s h t × Refused x h t e u)

  -- What `connect` and `connect_stream` make of the result of `auth`.
  abbrev admitted : H → Tried × S → Result (ConnectError E R F) H × S
  admitted h r = map_err_pair cast (bind_pair (is_authenticated net h) (map_err_pair auth_error r))

  admitted-Step :
      (at : Option H) (x : Host) (s : S) (h : H) (t : S)
      → Opened at x s h t
      → (r : Tried × S) → Outcome (attempt x h) (methods_of x) t r
      → Step at x s (admitted h r)
  admitted-Step at x s h t o (ok success, u) (inl (q, f)) = absurd cc
  admitted-Step at x s h t o (ok success, u) (inr d) = (t, o, d)
  admitted-Step at x s h t o (ok failure, u) (inl (q, f)) = inr (h, t, o, inl (refl, f))
  admitted-Step at x s h t o (ok failure, u) (inr (a, y, b, v, q, f, g, n)) = absurd (n refl)
  admitted-Step at x s h t o (err e, u) (inl (q, f)) = absurd cc
  admitted-Step at x s h t o (err e, u) (inr d) = inr (h, t, o, inr (e, refl, d))

  pub first_handle-Step : (x : Host) (s : S) → Step none x s (first_handle net make_handler x s)
  unfolding first_handle connect auth from_config
  first_handle-Step x s = elim (ended (make_handler x s)) [
    | ended_err e t q ↦ rw q (inl (no_context q))
    | ended_ok ctx t q ↦ elim (ended (net.connect_tcp ctx x.dest.name x.dest.port t)) [
      | ended_err e u p ↦ rw (q, p) (inl (no_server ctx t q p))
      | ended_ok h u p ↦
          rw (q, p)
            (admitted-Step none x s h u (directly ctx t q p) _
              (try_each-Outcome (attempt x h) (methods_of x) u))
    ]
  ]

  pub next_handle-Step :
      (g : H) (b : BastionItem) (s : S) → Step (some g) b.to s (next_handle net make_handler g b s)
  unfolding next_handle connect_stream auth from_config
  next_handle-Step g b s =
      elim (ended
        (net.channel_open_direct_tcpip g b.to.dest.name b.to.dest.port (codes "127.0.0.1") 0 s)) [
          | ended_err e t o ↦ rw o (inl (no_channel o))
          | ended_ok c t o ↦ elim (ended (make_handler b.to t)) [
            | ended_err e u q ↦ rw (o, q) (inl (no_context_through c t o q))
            | ended_ok ctx u q ↦ elim (ended (net.connect_over ctx c u)) [
              | ended_err e v p ↦ rw (o, q, p) (inl (no_server_through c t ctx u o q p))
              | ended_ok h v p ↦
                  rw (o, q, p)
                    (admitted-Step (some g) b.to s h v (through c t ctx u o q p) _
                      (try_each-Outcome (attempt b.to h) (methods_of b.to) v))
            ]
          ]
        ]
