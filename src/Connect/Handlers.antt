-- ===== src/Connect/Handlers.antt =====
-- `Context`, `MakeHandler` and the methods of `Connection` that make no connection (src/connect.rs).
use openrussh_client.Prelude.{Text, Bool, true, false, M}
use openrussh_client.Config.{Host, RequestTty}
use openrussh_client.Connect.{
  Context, ConnectError, auth_error, auth_failure, establish, proxy_jump, make_error, Connection,
}

module _ {K O : Type 0} where
  -- `Context::new`
  abbrev pub context : K → O → Context K O
  context handler conf = record { handler = handler; conf = conf }

  -- `Context::with_default_conf`, with russh's default configuration as a parameter.
  abbrev pub with_default_conf : O → K → Context K O
  with_default_conf default handler = context handler default

  -- `Context::into_inner`
  abbrev pub into_inner : Context K O → K × O
  into_inner ctx = (ctx.handler, ctx.conf)

-- `ContextCloner`
pub record ContextCloner (K O : Type 0) : Type 0 where
  pub inner : Context K O

-- `Context::cloner` and `ContextCloner::into_context`
abbrev pub cloner_of : {K O : Type 0} → Context K O → ContextCloner K O
cloner_of ctx = record { inner = ctx }

abbrev pub into_context : {K O : Type 0} → ContextCloner K O → Context K O
into_context cloner = cloner.inner

-- `MakeHandler`: the error is `F`.
pub record MakeHandler (T S K O F : Type 0) : Type 0 where
  pub make_handler : T → Host → M S F (Context K O)

-- `MakeHandler for &M`
instance abbrev pub by_reference :
    {T S K O F : Type 0} ⦃m : MakeHandler T S K O F⦄ → MakeHandler T S K O F
by_reference ⦃m⦄ = record { make_handler = m.make_handler }

-- `MakeHandlerFn`
pub record MakeHandlerFn (S K O F : Type 0) : Type 0 where
  pub func : Host → M S F (Context K O)

-- `MakeHandler for MakeHandlerFn`
abbrev pub by_function : {S K O F : Type 0} → MakeHandler (MakeHandlerFn S K O F) S K O F
by_function = record { make_handler = λ f host. f.func host }

-- `Error::failed`
unfoldable pub failed : {E R F : Type 0} → ConnectError E R F → Bool
failed (auth_error e) = false
failed auth_failure = true
failed (establish e) = false
failed (proxy_jump e) = false
failed (make_error e) = false

module _ {H : Type 0} where
  -- `Connection::handle` and `Connection::handle_mut`
  abbrev pub handle : Connection H → H
  handle conn = conn.handle

  abbrev pub handle_mut : Connection H → H → Connection H
  handle_mut conn handle = record conn { handle = handle }

  -- `Connection::request_tty` and `Connection::request_tty_mut`
  abbrev pub request_tty : Connection H → RequestTty
  request_tty conn = conn.tty

  abbrev pub request_tty_mut : Connection H → RequestTty → Connection H
  request_tty_mut conn tty = record conn { tty = tty }

  -- `Connection::disconnect`, with the reason `D` and the call of russh as a parameter.
  unfoldable pub disconnect :
      {S D R : Type 0}
      → (H → D → Text → Text → M S R (Unit {0}))
      → Connection H
      → D
      → Text
      → Text
      → M S R (Unit {0})
  disconnect call conn reason description lang_tag = call conn.handle reason description lang_tag
