-- ===== src/Connect.antt =====
-- Connections through bastions, with the authentication to each server (src/connect.rs).
pub mod Steps
pub mod Linked
pub mod Queried
pub mod Made
pub mod Handlers
pub mod Trusted
pub mod Identities
pub mod Confined
pub mod Tests
use openrussh_client.Prelude.{
  ℕ, Text, codes, List, [], ◌∷◌, Option, none, some, Result, ok, err, M, pure, fail, bind_pair,
  ◌>>=◌, on_err, map_err_pair,
}
use openrussh_client.Config.{Dest, Host, Chain, RequestTty, BastionItem, BastionIter}
use openrussh_client.Config.{iter as iter_chain}
use openrussh_client.Config.Route.{walk}
use openrussh_client.Auth.{AuthMethods, from_config}
use openrussh_client.Auth.{iter as iter_methods}
use openrussh_client.Auth.KeyFile.{Files}
use openrussh_client.Auth.Reply.{AuthError, AuthResult, success, failure}
use openrussh_client.Auth.Loop.{try_each}
use openrussh_client.Auth.Session.{World}
use openrussh_client.Auth.Session.{auth as perform}

-- A handler for a server, with the client's configuration.
pub record Context (K O : Type 0) : Type 0 where
  pub handler : K
  pub conf : O

-- `connect::Error`: `E` is the error of the handler, `R` that of russh, and `F` that of the maker.
pub data ConnectError (E R F : Type 0) : Type 0 where
  auth_error : AuthError → ConnectError E R F
  auth_failure : ConnectError E R F
  establish : E → ConnectError E R F
  proxy_jump : R → ConnectError E R F
  make_error : F → ConnectError E R F

abbrev pub Infallible : Type 0
Infallible = ⊥

-- `Error::cast`
abbrev pub cast : {E R F : Type 0} → ConnectError E R Infallible → ConnectError E R F
cast (auth_error e) = auth_error e
cast auth_failure = auth_failure
cast (establish e) = establish e
cast (proxy_jump e) = proxy_jump e
cast (make_error e) = absurd e

-- The calls of russh, over the state `S` of the network; `H` is a handle, `C` a channel and `A` the
-- client of an agent. `world` gives what the authentication calls over a handle.
pub record Network (S K O H C A E R : Type 0) : Type 0 where
  pub connect_tcp : Context K O → Text → ℕ → M S E H
  pub connect_over : Context K O → C → M S E H
  pub channel_open_direct_tcpip : H → Text → ℕ → Text → ℕ → M S R C
  pub world : H → World S A
  pub files : Files

-- `Connection`
pub record Connection (H : Type 0) : Type 0 where
  pub handle : H
  pub tty : RequestTty

module _ {S K O H C A E R : Type 0} (net : Network S K O H C A E R) where
  -- `auth`: the methods one after the other, until one succeeds or has an error.
  unfoldable pub auth : Dest → AuthMethods → H → M S AuthError AuthResult
  unfolding try_each perform iter_methods
  auth dest methods handle = try_each (perform (net.world handle) dest.user) (iter_methods methods)

  abbrev pub is_authenticated : {F : Type 0} → H → AuthResult → M S (ConnectError E R F) H
  is_authenticated handle success = pure handle
  is_authenticated handle failure = fail auth_failure

  unfoldable pub connect : Dest → AuthMethods → Context K O → M S (ConnectError E R Infallible) H
  unfolding auth
  connect dest methods ctx = do
    handle ← on_err establish (net.connect_tcp ctx dest.name dest.port)
    res ← on_err auth_error (auth dest methods handle)
    is_authenticated handle res

  unfoldable pub connect_stream :
      Dest → AuthMethods → C → Context K O → M S (ConnectError E R Infallible) H
  unfolding auth
  connect_stream dest methods stream ctx = do
    handle ← on_err establish (net.connect_over ctx stream)
    res ← on_err auth_error (auth dest methods handle)
    is_authenticated handle res

  module _ {F : Type 0} (make_handler : Host → M S F (Context K O)) where
    -- The block for the first server.
    unfoldable pub first_handle : Host → M S (ConnectError E R F) H
    unfolding connect from_config
    first_handle first = do
      ctx ← on_err make_error (make_handler first)
      on_err cast (connect first.dest (from_config net.files first.auth) ctx)

    -- The body of the loop over the bastions.
    unfoldable pub next_handle : H → BastionItem → M S (ConnectError E R F) H
    unfolding connect_stream from_config
    next_handle handle bastion = do
      channel ← on_err proxy_jump (
          net.channel_open_direct_tcpip handle bastion.to.dest.name bastion.to.dest.port
            (codes "127.0.0.1") 0)
      ctx ← on_err make_error (make_handler bastion.to)
      on_err cast
          (connect_stream bastion.to.dest (from_config net.files bastion.to.auth) channel ctx)

    unfoldable pub bastion_loop : List BastionItem → H → M S (ConnectError E R F) H
    unfolding next_handle
    bastion_loop [] handle = pure handle
    bastion_loop (bastion ∷ it) handle = next_handle handle bastion >>= bastion_loop it

    unfoldable pub connect_by : Host × Option BastionIter → M S (ConnectError E R F) H
    unfolding first_handle bastion_loop walk
    connect_by (first, some bastions) = do
      handle ← first_handle first
      bastion_loop (walk (some bastions)) handle
    connect_by (first, none) = first_handle first

    -- `Connection::connect_impl`, and `Connection::connect`.
    unfoldable pub connect_impl : Chain → M S (ConnectError E R F) (Connection H)
    unfolding connect_by iter_chain
    connect_impl target = do
      handle ← connect_by (iter_chain target)
      pure (record { handle = handle; tty = target.target.tty })
