-- ===== src/Child.antt =====
-- The output of a remote process (src/process/child.rs).
--
-- The channel's reader is the list of the messages it will give, with its end behind the last; the
-- requests to close the channel are counted.
pub mod Status
pub mod Collected
pub mod Input
pub mod Handle
mod Tests
use Prim.Native.Nat.{bit_and}
use openrussh_client.Prelude.{
  ℕ, zero, suc, ◌+◌, ◌*◌, ◌^◌, Text, List, [], ◌∷◌, ◌++◌, Bool, true, false, Option, none, some,
  ◌==◌, if◌then◌else◌,
}

-- `ChannelMsg`, with the variants that the code tells apart; `other` stands for the rest of them.
pub data ChannelMsg : Type 0 where
  data_msg : Text → ChannelMsg
  extended_data : Text → ℕ → ChannelMsg
  exit_status : ℕ → ChannelMsg
  failure : ChannelMsg
  other : ℕ → ChannelMsg

pub data Chunk : Type 0 where
  stdout_chunk : Text → Chunk
  stderr_chunk : Text → Chunk

-- `ChildOut`: the reader, the status, and the writer's `close` requests.
pub record ChildOut : Type 0 where
  pub reader : List ChannelMsg
  pub status : ℕ
  pub closes : ℕ

-- `Child::new`
abbrev pub new : List ChannelMsg → ChildOut
new reader = record { reader = reader; status = 0; closes = 0 }

-- The loop of `read_next` over the messages, with the close behind it.
unfoldable pub read_loop : List ChannelMsg → ℕ → ℕ → Option Chunk × ChildOut
read_loop [] status closes = (none, record { reader = []; status = status; closes = suc closes })
read_loop (data_msg d ∷ ms) status closes =
    (some (stdout_chunk d), record { reader = ms; status = status; closes = closes })
read_loop (extended_data d ext ∷ ms) status closes =
    let rest = read_loop ms status closes in
    if ext == 1
    then (some (stderr_chunk d), record { reader = ms; status = status; closes = closes })
    else rest
read_loop (exit_status s ∷ ms) status closes = read_loop ms s closes
read_loop (failure ∷ ms) status closes =
    (none, record { reader = ms; status = status; closes = suc closes })
read_loop (other n ∷ ms) status closes = read_loop ms status closes

unfoldable pub read_next : ChildOut → Option Chunk × ChildOut
unfolding read_loop
read_next c = read_loop c.reader c.status c.closes

-- `cast_status`: the raw wait status.
unfoldable pub cast_status : ℕ → ℕ
cast_status status = bit_and status 0xff * 2 ^ 8

pub record Output : Type 0 where
  pub status : ℕ
  pub stdout : Text
  pub stderr : Text

abbrev pub extend : Chunk → Text × Text → Text × Text
extend (stdout_chunk d) (out, err) = (out ++ d, err)
extend (stderr_chunk d) (out, err) = (out, err ++ d)

-- The `while let` loop of `wait_with_output`; `none` if the fuel is used up.
unfoldable pub output_loop : ℕ → Text × Text → Option Chunk × ChildOut → Option (Output × ChildOut)
unfolding read_next cast_status
output_loop fuel (out, err) (none, c) =
    some (record { status = cast_status c.status; stdout = out; stderr = err }, c)
output_loop zero acc (some chunk, c) = none
output_loop (suc fuel) acc (some chunk, c) = output_loop fuel (extend chunk acc) (read_next c)

unfoldable pub wait_with_output : ℕ → ChildOut → Option (Output × ChildOut)
unfolding output_loop
wait_with_output fuel c = output_loop fuel ([], []) (read_next c)

-- The loop of `wait`.
unfoldable pub wait_loop : ℕ → Option Chunk × ChildOut → Option (ℕ × ChildOut)
unfolding read_next cast_status
wait_loop fuel (none, c) = some (cast_status c.status, c)
wait_loop zero (some chunk, c) = none
wait_loop (suc fuel) (some chunk, c) = wait_loop fuel (read_next c)

unfoldable pub wait : ℕ → ChildOut → Option (ℕ × ChildOut)
unfolding wait_loop
wait fuel c = wait_loop fuel (read_next c)
