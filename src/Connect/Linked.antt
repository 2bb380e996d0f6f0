-- ===== src/Connect/Linked.antt =====
-- What a connection through bastions is made of (src/connect.rs): the steps of `connect_impl` as
-- relations between states of the network.
use openrussh_client.Prelude.{
  rev, List, [], ◌∷◌, ◌++◌, ◌≡◌, refl, sym, ap, Option, none, some, Result, ok, err, M, pure,
  bind_pair, ◌>>=◌,
}
use openrussh_client.Config.{Host, Chain, RequestTty, BastionItem, BastionIter}
use openrussh_client.Config.{iter as iter_chain}
use openrussh_client.Config.Route.{route, walk, hops, head_or, some_hosts, iter-route}
use openrussh_client.Connect.{
  Context, ConnectError, Network, Connection, connect_impl, connect_by, first_handle, bastion_loop,
}
use openrussh_client.Connect.Steps.{Step, first_handle-Step, next_handle-Step}

module _ {S K O H C A E R F : Type 0} (net : Network S K O H C A E R)
    (make_handler : Host → M S F (Context K O)) where
  -- From the connection to a host, if there is one, a connection to each host of the list in order,
  -- each through the one before it.
  pub data Linked : Option H → S → List Host → Option H → S → Type 0 where
    stay : {at : Option H} → {s : S} → Linked at s [] at s
    hop :
        {at : Option H}
        → {s : S} → {x : Host} → {xs : List Host} → (h : H) → (t : S) → {to : Option H} → {u : S}
        → Step net make_handler at x s (ok h, t)
        → Linked (some h) t xs to u
        → Linked at s (x ∷ xs) to u

  -- A host could not be reached or did not let the user in, behind others that did.
  abbrev pub StoppedAt : Option H → S → List Host → ConnectError E R F → S → Type 0
  StoppedAt at s hosts e t =
      (before : List Host) × (x : Host) × (after : List Host) × (from : Option H) × (u : S) × (hosts
        ≡ before ++ x ∷ after)
      × Linked at s before from u
      × Step net make_handler from x u (err e, t)

  abbrev pub Travelled : Option H → S → List Host → Result (ConnectError E R F) H × S → Type 0
  Travelled at s hosts (ok h, t) = Linked at s hosts (some h) t
  Travelled at s hosts (err e, t) = StoppedAt at s hosts e t

  -- A connection with this setting for a terminal through the hosts, or the host where it stopped.
  abbrev pub ArrivedBy :
      List Host → RequestTty → S → Result (ConnectError E R F) (Connection H) × S → Type 0
  ArrivedBy hosts tty s (ok conn, t) = Linked none s hosts (some conn.handle) t × (conn.tty ≡ tty)
  ArrivedBy hosts tty s (err e, t) = StoppedAt none s hosts e t

  abbrev pub Arrived : Chain → S → Result (ConnectError E R F) (Connection H) × S → Type 0
  Arrived c s r = ArrivedBy (route c) c.target.tty s r

  module _ {at : Option H} {s : S} {x : Host} (h : H) (t : S)
      (step : Step net make_handler at x s (ok h, t)) where
    behind :
        (xs : List Host) (r : Result (ConnectError E R F) H × S)
        → Travelled (some h) t xs r
        → Travelled at s (x ∷ xs) r
    behind xs (ok g, u) l = hop h t step l
    behind xs (err e, u) (before, y, after, from, v, q, l, f) =
        (x ∷ before, y, after, from, v, ap (λ ys. x ∷ ys) q, hop h t step l, f)

  -- One step, and what follows it.
  bound :
      (at : Option H) (s : S) (x : Host) (xs : List Host) (rest : H → M S (ConnectError E R F) H)
      (r : Result (ConnectError E R F) H × S)
      → Step net make_handler at x s r
      → ((h : H) (t : S) → Travelled (some h) t xs (rest h t))
      → Travelled at s (x ∷ xs) (bind_pair rest r)
  bound at s x xs rest (err e, t) step k = ([], x, xs, at, s, refl, stay, step)
  bound at s x xs rest (ok h, t) step k = behind h t step xs (rest h t) (k h t)

  bastion_loop-Travelled :
      (x : Host) (xs : List Host) (h : H) (s : S)
      → Travelled (some h) s xs (bastion_loop net make_handler (hops (x ∷ xs)) h s)
  unfolding bastion_loop
  bastion_loop-Travelled x [] h s = stay
  bastion_loop-Travelled x (y ∷ ys) h s =
      bound (some h) s y ys (bastion_loop net make_handler (hops (y ∷ ys))) _
        (next_handle-Step net make_handler h (record { from = x; to = y }) s)
        (λ g t. bastion_loop-Travelled y ys g t)

  reach : Host → List BastionItem → M S (ConnectError E R F) H
  reach first items = first_handle net make_handler first >>= bastion_loop net make_handler items

  bind-pure : (r : Result (ConnectError E R F) H × S) → bind_pair pure r ≡ r
  bind-pure (ok h, t) = refl
  bind-pure (err e, t) = refl

  connect_by-reach :
      (p : Host × Option BastionIter) (s : S)
      → connect_by net make_handler p s ≡ reach p.0 (walk p.1) s
  unfolding connect_by reach bastion_loop walk
  connect_by-reach (first, none) s = sym (bind-pure (first_handle net make_handler first s))
  connect_by-reach (first, some it) s = refl

  reach-Travelled :
      (target : Host) (front : List Host) (s : S)
      → Travelled none s
          (front ++ target ∷ [])
          (reach (head_or target (front ++ target ∷ [])) (hops (front ++ target ∷ [])) s)
  unfolding reach
  reach-Travelled target [] s =
      bound none s target [] (bastion_loop net make_handler []) _
        (first_handle-Step net make_handler target s) (λ h t. bastion_loop-Travelled target [] h t)
  reach-Travelled target (x ∷ xs) s =
      bound none s x (xs ++ target ∷ [])
        (bastion_loop net make_handler (hops (x ∷ (xs ++ target ∷ [])))) _
        (first_handle-Step net make_handler x s)
        (λ h t. bastion_loop-Travelled x (xs ++ target ∷ []) h t)

  with_tty :
      (c : Chain) (s : S) (r : Result (ConnectError E R F) H × S)
      → Travelled none s (route c) r
      → Arrived c s (bind_pair (λ h. pure (record { handle = h; tty = c.target.tty })) r)
  with_tty c s (ok h, t) l = (l, refl)
  with_tty c s (err e, t) l = l

  -- A connection to a chain's target is made by connecting to each host of the way to it, in order:
  -- to the first host directly, and to each other through a channel that the connection before it
  -- opens. Each host has let the user in by one of the methods that its configuration gives, and
  -- the terminal's setting is that of the target. Where `connect_impl` gives an error, one host of
  -- the way could not be reached or did not let the user in, all before it had been connected to in
  -- that way, and nothing was asked of those behind it.
  pub connect_impl-Arrived : (c : Chain) (s : S) → Arrived c s (connect_impl net make_handler c s)
  unfolding connect_impl
  connect_impl-Arrived c s =
      let way = iter-route c in
      with_tty c s _ (
        rw (connect_by-reach (iter_chain c) s, way.0, way.1)
          (reach-Travelled c.target (rev (some_hosts c.bastions)) s))
