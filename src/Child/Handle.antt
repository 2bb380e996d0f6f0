-- ===== src/Child/Handle.antt =====
-- `Child` of src/process/child.rs: both halves of a process's channel, with the last status.
use openrussh_client.Prelude.{ℕ, zero, suc, Text, List, ◌≡◌, refl, Option, none, some, M}
use openrussh_client.Child.{
  ChannelMsg, Chunk, ChildOut, Output, cast_status, read_next, wait_loop, wait, wait_with_output,
}
use openrussh_client.Child.Input.{Writers, ChildIn, write_stdin, write_stdin_io}

-- As in `ChildOut`, the reader is the messages that it will give, and the requests to close are
-- counted.
pub record Child (W : Type 0) : Type 0 where
  pub half : W
  pub messages : List ChannelMsg
  pub last_status : ℕ
  pub closes : ℕ

-- `Child::new`; `Channel::split` is a parameter.
unfoldable pub new : {W C : Type 0} → (C → List ChannelMsg × W) → C → Child W
new split channel =
    let (messages, half) = split channel in
    record { half = half; messages = messages; last_status = 0; closes = 0 }

module _ {W : Type 0} where
  -- `Child::reader` and `ChildOut::new`
  abbrev pub reader : Child W → ChildOut
  reader child = record {
    reader = child.messages;
    status = child.last_status;
    closes = child.closes;
  }

  -- `Child::writer` and `ChildIn::new`
  abbrev pub writer : Child W → ChildIn W
  writer child = record { writer = child.half }

  -- `Child::channel`
  abbrev pub channel : Child W → ChildIn W × ChildOut
  channel child = (writer child, reader child)

  -- The child behind what its reader has done.
  abbrev pub left_by : Child W → ChildOut → Child W
  left_by child out = record child {
    messages = out.reader;
    last_status = out.status;
    closes = out.closes;
  }

  -- `Child::read_next`
  unfoldable pub child_read_next : Child W → Option Chunk × Child W
  unfolding read_next
  child_read_next child = let (chunk, out) = read_next (reader child) in (chunk, left_by child out)

  -- `Child::wait` and `Child::wait_with_output`, with fuel for the chunks.
  unfoldable pub child_wait : ℕ → Child W → Option (ℕ × ChildOut)
  unfolding wait
  child_wait fuel child = wait fuel (reader child)

  unfoldable pub child_wait_with_output : ℕ → Child W → Option (Output × ChildOut)
  unfolding wait_with_output
  child_wait_with_output fuel child = wait_with_output fuel (reader child)

  -- `Child::status`
  unfoldable pub status : Child W → ℕ
  unfolding cast_status
  status child = cast_status child.last_status

-- `wait` returns what `status` gives behind it.
Waited : Option (ℕ × ChildOut) → Type 0
Waited none = Unit
Waited (some (code, out)) = code ≡ cast_status out.status

wait_loop-Waited : (fuel : ℕ) (r : Option Chunk × ChildOut) → Waited (wait_loop fuel r)
unfolding Waited wait_loop
wait_loop-Waited fuel (none, c) = refl
wait_loop-Waited zero (some chunk, c) = tt
wait_loop-Waited (suc fuel) (some chunk, c) = wait_loop-Waited fuel (read_next c)

child_wait-status :
    {W : Type 0} (fuel : ℕ) (child : Child W) {code : ℕ} {out : ChildOut}
    → child_wait fuel child ≡ some (code, out)
    → code ≡ status (left_by child out)
unfolding Waited child_wait status
child_wait-status fuel child e =
    let done = wait_loop-Waited fuel (read_next (reader child)) in rw e at done

module _ {S W R G E : Type 0} (net : Writers S W R G E) where
  -- `Child::write_stdin`, `Child::write_stdin_io`, `Child::eof` and `Child::signal`
  abbrev pub child_write_stdin : Child W → Text → M S E (Unit {0})
  child_write_stdin child bytes = write_stdin net (writer child) bytes

  abbrev pub child_write_stdin_io : Child W → R → M S E (Unit {0})
  child_write_stdin_io child source = write_stdin_io net (writer child) source

  abbrev pub child_eof : Child W → M S E (Unit {0})
  child_eof child = net.eof child.half

  abbrev pub child_signal : Child W → G → M S E (Unit {0})
  child_signal child sig = net.signal child.half sig
