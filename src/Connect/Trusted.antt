-- ===== src/Connect/Trusted.antt =====
-- Connections whose servers are checked against known hosts: src/connect.rs with src/known_hosts.rs.
use openrussh_client.Prelude.{
  ℕ, Text, List, [], ◌∷◌, ◌≡◌, refl, sym, ap, ◌∙◌, true, Option, none, some, some_inj, ok, M,
}
use openrussh_client.Config.{Host, Chain}
use openrussh_client.Config.Route.{route}
use openrussh_client.KnownHosts.Pattern.{External}
use openrussh_client.KnownHosts.Handler.{Entry, Handler, new, handler, ServerKey, accepts}
use openrussh_client.Connect.{Context, Network, Connection, connect_impl}
use openrussh_client.Auth.Session.Accepted.{AcceptedIn, auth-AcceptedIn}
use openrussh_client.KnownHosts.Preferred.{Preferred}
use openrussh_client.Connect.Made.{known_hosts, known_hosts-ordered}
use openrussh_client.Connect.Steps.{LetIn, Opened, directly, through}
use openrussh_client.Connect.Linked.{Linked, stay, hop, connect_impl-Arrived}

module _ {S H C A E R F : Type 0} (net : Network S Handler Preferred H C A E R)
    (make_handler : Host → M S F (Context Handler Preferred)) (ext : External) (es : List Entry)
    (server_key : H → ServerKey) where
  -- russh gives a handle only where the handler accepts the server's key, and the handlers are those of
  -- `KnownHosts::make_handler`, with russh's default preferences as a parameter.
  pub record IsChecked (default : Preferred) : Type 0 where
    pub tcp :
        (ctx : Context Handler Preferred) (name : Text) (port : ℕ) (s : S) (h : H) (t : S)
        → net.connect_tcp ctx name port s ≡ (ok h, t)
        → accepts ext ctx.handler (server_key h) ≡ true
    pub over :
        (ctx : Context Handler Preferred) (c : C) (s : S) (h : H) (t : S)
        → net.connect_over ctx c s ≡ (ok h, t)
        → accepts ext ctx.handler (server_key h) ≡ true
    pub made :
        (x : Host) (s : S) (ctx : Context Handler Preferred) (t : S)
        → make_handler x s ≡ (ok ctx, t)
        → known_hosts ext (new es) default x ≡ some ctx

  -- The known hosts accept the key of the server for this host and port.
  abbrev pub IsKnown : Host → H → Type 0
  IsKnown x h = accepts ext (handler (new es) x.dest.name x.dest.port) (server_key h) ≡ true

  -- It is known, and it has accepted a request for the host's user.
  abbrev pub IsAccepted : Host → H → Type 0
  IsAccepted x h = IsKnown x h × ((t : S) × AcceptedIn (net.world h) x.dest.user t)

  -- One connection for each host.
  abbrev pub Each : List Host → List H → Type 0
  Each [] [] = Unit
  Each [] (h ∷ hs) = ⊥
  Each (x ∷ xs) [] = ⊥
  Each (x ∷ xs) (h ∷ hs) = IsAccepted x h × Each xs hs

  abbrev pub last_from : Option H → List H → Option H
  last_from at [] = at
  last_from at (h ∷ hs) = last_from (some h) hs

  module _ {default : Preferred} (checked : IsChecked default) where
    made_for :
        (x : Host) (s : S) (ctx : Context Handler Preferred) (t : S)
        → make_handler x s ≡ (ok ctx, t)
        → handler (new es) x.dest.name x.dest.port ≡ ctx.handler
    made_for x s ctx t e =
        ap (λ (c : Context Handler Preferred). c.handler)
          (some_inj (sym (known_hosts-ordered ext es default x) ∙ checked.made x s ctx t e))

    Opened-IsKnown :
        {at : Option H} {x : Host} {s : S} {h : H} {t : S}
        → Opened net make_handler at x s h t
        → IsKnown x h
    Opened-IsKnown {x = x} {s = s} {h = h} {t = u} (directly ctx t made opened) =
        ap (λ k. accepts ext k (server_key h)) (made_for x s ctx t made)
        ∙ checked.tcp ctx x.dest.name x.dest.port t h u opened
    Opened-IsKnown {x = x} {h = h} {t = v} (through c t ctx u channel made opened) =
        ap (λ k. accepts ext k (server_key h)) (made_for x t ctx u made)
        ∙ checked.over ctx c u h v opened

    LetIn-AcceptedIn :
        (x : Host) (h : H) (s t : S)
        → LetIn net make_handler x h s t
        → AcceptedIn (net.world h) x.dest.user t
    LetIn-AcceptedIn x h s t (before, method, after, u, e, f, run, n) =
        auth-AcceptedIn (net.world h) x.dest.user method u t run

    Linked-Each :
        {at : Option H} {s : S} {xs : List Host} {to : Option H} {t : S}
        → Linked net make_handler at s xs to t
        → (hs : List H) × Each xs hs × (last_from at hs ≡ to)
    Linked-Each stay = ([], tt, refl)
    Linked-Each (hop {x = x} h t (u, opened, let_in) rest) =
        let others = Linked-Each rest in
        (
          h ∷ others.0,
          ((Opened-IsKnown opened, (t, LetIn-AcceptedIn x h u t let_in)), others.1),
          others.2,
        )

    -- With the handlers of known hosts, a connection to a chain's target goes through one
    -- connection for each host of the way to it, in order; the known hosts accept the key of each
    -- of those servers for its name and port, and each has accepted a request for the user of its
    -- host. It holds where the handlers are those of `KnownHosts::make_handler`, and russh gives a
    -- handle only if the handler accepts the server's key.
    pub connect_impl-Each :
        (c : Chain) (s : S) (conn : Connection H) (t : S)
        → connect_impl net make_handler c s ≡ (ok conn, t)
        → (hs : List H) × Each (route c) hs × (last_from none hs ≡ some conn.handle)
    connect_impl-Each c s conn t e =
        let arrived = connect_impl-Arrived net make_handler c s in Linked-Each (rw e at arrived).0
