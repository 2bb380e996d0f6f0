-- ===== src/Connect/Confined.antt =====
-- What a connection reads and addresses: src/connect.rs with src/auth.rs.
pub mod Attempts
mod Tests
use openrussh_client.Prelude.{
  ℕ, codes, List, [], ◌∷◌, ◌++◌, ◌≡◌, refl, sym, inl, inr, Option, none, some, All, All-map,
  All-before, Result, ok, err, M,
}
use openrussh_client.Prelude.Keeps.{Keeps}
use mathlib.Core.List.{Mem, mem-cons_self, mem-cons_of_mem}
use openrussh_client.Config.{Host, Chain}
use openrussh_client.Config.Route.{route}
use openrussh_client.Auth.{
  local_priv, local_cert, full, agent_priv, agent_pub, agent_cert_priv, agent_cert_pub, AuthMethod,
  no_auth, local, agent, AuthConfig,
}
use openrussh_client.Auth.KeyFile.{Files}
use openrussh_client.Auth.Reply.{Tried, failure}
use openrussh_client.Auth.Loop.{Fail, DecidedBy}
use openrussh_client.Auth.Listed.{some_items}
use openrussh_client.Auth.Configured.{IsAllowed, from_config-IsAllowed}
use openrussh_client.Auth.Session.Confined.{Allowed, IsConfined, IsWithin, auth-Keeps}
use openrussh_client.Connect.{Context, ConnectError, Network, Connection, connect_impl}
use openrussh_client.Connect.Confined.Attempts.{
  configured, IsAllowed-IsWithin, kept_to, Fail-keeps, DecidedBy-keeps,
}
use openrussh_client.Connect.Identities.{SameAt, with_files, connect_impl-same}
use openrussh_client.Connect.Steps.{
  methods_of, attempt, Opened, directly, through, Unopened, no_context, no_server, no_channel,
  no_context_through, no_server_through, Step,
}
use openrussh_client.Connect.Linked.{Linked, stay, hop, Arrived, connect_impl-Arrived}

module _ {S K O H C A E R F : Type 0} (net : Network S K O H C A E R)
    (make_handler : Host → M S F (Context K O)) (P : S → Type 0) where
  -- A context that is made for the host, a channel that is opened to it, and a handle of a
  -- connection to it.
  abbrev pub IsMadeFor : Host → Context K O → Type 0
  IsMadeFor x ctx = (s : S) × (t : S) × (make_handler x s ≡ (ok ctx, t))

  abbrev pub IsChannelTo : Host → C → Type 0
  IsChannelTo x c =
      (g : H) × (s : S) × (t : S) × (net.channel_open_direct_tcpip g x.dest.name x.dest.port
          (codes "127.0.0.1") 0 s
        ≡ (ok c, t))

  abbrev pub IsHandleOf : Host → H → Type 0
  IsHandleOf x h = (at : Option H) × (s : S) × (t : S) × Opened net make_handler at x s h t

  -- Making a handler for the host and connecting to it keep it, directly where there is no host
  -- before it, else by a channel that a connection to the host before it opens; and so does what
  -- the host's configuration lets the authentication load and ask, on a connection to this host.
  pub record IsKeptAt (before : Option Host) (x : Host) : Type 0 where
    pub make : Keeps P (make_handler x)
    pub tcp :
        (ctx : Context K O)
        → before ≡ none
        → IsMadeFor x ctx
        → Keeps P (net.connect_tcp ctx x.dest.name x.dest.port)
    pub channel :
        (y : Host) (h : H)
        → before ≡ some y
        → IsHandleOf y h
        → Keeps P (net.channel_open_direct_tcpip h x.dest.name x.dest.port (codes "127.0.0.1") 0)
    pub over :
        (ctx : Context K O) (c : C)
        → IsMadeFor x ctx
        → IsChannelTo x c
        → Keeps P (net.connect_over ctx c)
    pub asked :
        (h : H) → IsHandleOf x h → IsConfined (net.world h) x.dest.user (configured x.auth) P

  -- Where a connection stands: at no host, or at one that it has a handle of.
  abbrev IsAt : Option Host → Option H → Type 0
  IsAt none none = Unit
  IsAt none (some h) = ⊥
  IsAt (some y) none = ⊥
  IsAt (some y) (some h) = IsHandleOf y h

  methods-keep :
      (before : Option Host) (x : Host) (h : H)
      → IsKeptAt before x
      → IsHandleOf x h
      → All (λ m. Keeps P (attempt net make_handler x h m)) (methods_of net make_handler x)
  methods-keep before x h k o =
      All-map
        (λ m a.
          auth-Keeps (net.world h) x.dest.user (configured x.auth) P (k.asked h o) m
            (IsAllowed-IsWithin net.files x.auth m a))
        (methods_of net make_handler x) (from_config-IsAllowed net.files x.auth)

  Opened-keeps :
      (before : Option Host) {at : Option H} {x : Host} {s : S} {h : H} {t : S}
      → IsAt before at
      → IsKeptAt before x
      → Opened net make_handler at x s h t
      → P s
      → P t
  Opened-keeps none a k (directly ctx t e f) p =
      kept_to (k.tcp ctx refl (_, _, e)) f (kept_to k.make e p)
  Opened-keeps (some y) a k (directly ctx t e f) p = absurd a
  Opened-keeps none a k (through c t ctx u e f o) p = absurd a
  Opened-keeps (some y) a k (through {g = g} c t ctx u e f o) p =
      kept_to (k.over ctx c (_, _, f) (g, _, _, e)) o
        (kept_to k.make f (kept_to (k.channel y g refl a) e p))

  Unopened-keeps :
      (before : Option Host) {at : Option H} {x : Host} {s : S} {e : ConnectError E R F} {t : S}
      → IsAt before at
      → IsKeptAt before x
      → Unopened net make_handler at x s e t
      → P s
      → P t
  Unopened-keeps before a k (no_context e) p = kept_to k.make e p
  Unopened-keeps none a k (no_server ctx t e f) p =
      kept_to (k.tcp ctx refl (_, _, e)) f (kept_to k.make e p)
  Unopened-keeps (some y) a k (no_server ctx t e f) p = absurd a
  Unopened-keeps none a k (no_channel e) p = absurd a
  Unopened-keeps (some y) a k (no_channel {g = g} e) p = kept_to (k.channel y g refl a) e p
  Unopened-keeps none a k (no_context_through c t e f) p = absurd a
  Unopened-keeps (some y) a k (no_context_through {g = g} c t e f) p =
      kept_to k.make f (kept_to (k.channel y g refl a) e p)
  Unopened-keeps none a k (no_server_through c t ctx u e f o) p = absurd a
  Unopened-keeps (some y) a k (no_server_through {g = g} c t ctx u e f o) p =
      kept_to (k.over ctx c (_, _, f) (g, _, _, e)) o
        (kept_to k.make f (kept_to (k.channel y g refl a) e p))

  Step-keeps :
      (before : Option Host) (at : Option H) (x : Host) (s : S)
      (r : Result (ConnectError E R F) H × S)
      → IsAt before at
      → IsKeptAt before x
      → Step net make_handler at x s r
      → P s
      → P r.1
  Step-keeps before at x s (ok h, u) a k (t, o, l) p =
      DecidedBy-keeps P (attempt net make_handler x h) _ t _
        (methods-keep before x h k (at, s, t, o)) l (Opened-keeps before a k o p)
  Step-keeps before at x s (err e, u) a k (inl n) p = Unopened-keeps before a k n p
  Step-keeps before at x s (err e, u) a k (inr (h, t, o, inl (q, f))) p =
      Fail-keeps P (attempt net make_handler x h) _ (methods-keep before x h k (at, s, t, o)) t u f
        (Opened-keeps before a k o p)
  Step-keeps before at x s (err e, u) a k (inr (h, t, o, inr (b, q, d))) p =
      DecidedBy-keeps P (attempt net make_handler x h) _ t _
        (methods-keep before x h k (at, s, t, o)) d (Opened-keeps before a k o p)

  -- It is kept at each of the hosts, behind the one before it.
  abbrev pub AreKept : Option Host → List Host → Type 0
  AreKept before [] = Unit
  AreKept before (x ∷ xs) = IsKeptAt before x × AreKept (some x) xs

  Linked-keeps :
      (before : Option Host) {at : Option H} {s : S} {xs : List Host} {to : Option H} {t : S}
      → IsAt before at
      → Linked net make_handler at s xs to t
      → AreKept before xs
      → P s
      → P t
  Linked-keeps before a stay k p = p
  Linked-keeps before {at = at} {s = s} a (hop {x = x} h t step rest) (k, ks) p =
      Linked-keeps (some x) (at, s, step.0, step.1) rest ks
        (Step-keeps before at x s (ok h, t) a k step p)

  -- Up to the host where a connection stops.
  Linked-keeps-before :
      (before : Option Host) {at : Option H} {s : S} {xs : List Host} (x : Host) (after : List Host)
      {to : Option H} {t : S}
      → IsAt before at
      → Linked net make_handler at s xs to t
      → AreKept before (xs ++ x ∷ after)
      → P s
      → (last : Option Host) × IsAt last to × IsKeptAt last x × P t
  Linked-keeps-before before x after a stay (k, ks) p = (before, a, k, p)
  Linked-keeps-before before {at = at} {s = s} x after a (hop {x = y} h t step rest) (k, ks) p =
      Linked-keeps-before (some y) x after (at, s, step.0, step.1) rest ks
        (Step-keeps before at y s (ok h, t) a k step p)

  Arrived-keeps :
      (c : Chain) (s : S) (r : Result (ConnectError E R F) (Connection H) × S)
      → AreKept none (route c)
      → Arrived net make_handler c s r
      → P s
      → P r.1
  Arrived-keeps c s (ok conn, t) k (l, q) p = Linked-keeps none tt l k p
  Arrived-keeps c s (err e, t) k (front, x, after, from, u, q, l, f) p =
      let (last, a, kept, there) = Linked-keeps-before none x after tt l (rw q at k) p in
      Step-keeps last from x u (err e, t) a kept f there

  -- A connection loads no key and no certificate, connects to no agent, and addresses no server but
  -- those that the configuration of the hosts of the way names: what holds before, and is kept for
  -- each host of the way by making its handler, by connecting to its name and port, for the first
  -- host directly and else through the host before it, and by what its own authentication may do,
  -- holds after `connect_impl`, whether it returns a connection or an error. On a connection to
  -- that host, and on no other, its authentication may load its identities and its certificate,
  -- connect to its agent and ask it, and request for its user. The choice of methods depends on the
  -- first bytes of the identities of these hosts and of no other file: with any other files that
  -- begin alike at those paths, the connection does the same and gives the same result.
  pub connect_impl-keeps :
      (c : Chain)
      → AreKept none (route c)
      → (others : Files) → All (SameAt net.files others) (route c)
      → Keeps P (connect_impl net make_handler c)
        × (connect_impl net make_handler c
            ≡ connect_impl (with_files net make_handler others) make_handler c)
  connect_impl-keeps c k others same = (
    record { at = λ s p. Arrived-keeps c s _ k (connect_impl-Arrived net make_handler c s) p },
    connect_impl-same net make_handler others c same,
  )
