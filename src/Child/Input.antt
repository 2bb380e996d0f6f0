-- ===== src/Child/Input.antt =====
-- The input of a remote process (src/process/child.rs): the requests on the channel's write half.
use openrussh_client.Prelude.{Text, M}

-- The calls of russh's `ChannelWriteHalf` `W`, with its signals `G`; `R` is a reader that
-- `data_from`, russh's `data`, copies to its end.
pub record Writers (S W R G E : Type 0) : Type 0 where
  pub data_bytes : W → Text → M S E (Unit {0})
  pub data_from : W → R → M S E (Unit {0})
  pub eof : W → M S E (Unit {0})
  pub signal : W → G → M S E (Unit {0})
  pub close : W → M S E (Unit {0})

pub record ChildIn (W : Type 0) : Type 0 where
  pub writer : W

module _ {S W R G E : Type 0} (net : Writers S W R G E) where
  -- `ChildIn::write_stdin`, of the bytes that the data is converted to, and `Child::write_stdin`.
  unfoldable pub write_stdin : ChildIn W → Text → M S E (Unit {0})
  write_stdin child bytes = net.data_bytes child.writer bytes

  unfoldable pub write_stdin_io : ChildIn W → R → M S E (Unit {0})
  write_stdin_io child reader = net.data_from child.writer reader

  unfoldable pub eof : ChildIn W → M S E (Unit {0})
  eof child = net.eof child.writer

  unfoldable pub signal : ChildIn W → G → M S E (Unit {0})
  signal child sig = net.signal child.writer sig

  -- `Child::close`
  unfoldable pub close : ChildIn W → M S E (Unit {0})
  close child = net.close child.writer
