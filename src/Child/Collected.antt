-- ===== src/Child/Collected.antt =====
-- What `wait_with_output` and `wait` return, read off the messages (src/process/child.rs).
use openrussh_client.Prelude.{
  ℕ, zero, suc, ◌≤◌, Text, List, [], ◌∷◌, ◌++◌, append_assoc, append-nil, ◌≡◌, refl, sym, ◌%◌, ◌*◌,
  some, ◌==◌, if◌then◌else◌, arith, Bool-cases, inl, inr, length,
}
use openrussh_client.Child.Status.{cast_status_lem}
use openrussh_client.Child.{
  ChannelMsg, data_msg, extended_data, exit_status, failure, other, ChildOut, new, read_loop,
  read_next, cast_status, Output, output_loop, wait_with_output, wait_loop, wait,
}

-- The messages in front of the first failure, and those behind it.
abbrev pub before_failure : List ChannelMsg → List ChannelMsg
before_failure [] = []
before_failure (failure ∷ ms) = []
before_failure (m ∷ ms) = m ∷ before_failure ms

abbrev pub after_failure : List ChannelMsg → List ChannelMsg
after_failure [] = []
after_failure (failure ∷ ms) = ms
after_failure (m ∷ ms) = after_failure ms

abbrev pub stdout_of : List ChannelMsg → Text
stdout_of [] = []
stdout_of (data_msg d ∷ ms) = d ++ stdout_of ms
stdout_of (m ∷ ms) = stdout_of ms

abbrev pub stderr_of : List ChannelMsg → Text
stderr_of [] = []
stderr_of (extended_data d ext ∷ ms) = (if ext == 1 then d else []) ++ stderr_of ms
stderr_of (m ∷ ms) = stderr_of ms

abbrev pub last_status : ℕ → List ChannelMsg → ℕ
last_status s [] = s
last_status s (exit_status t ∷ ms) = last_status t ms
last_status s (m ∷ ms) = last_status s ms

-- The child when the reading has ended.
abbrev pub ended : List ChannelMsg → ℕ → ℕ → ChildOut
ended ms status closes = record {
  reader = after_failure ms;
  status = last_status status (before_failure ms);
  closes = suc closes;
}

abbrev collected : Text × Text → List ChannelMsg → ℕ → ℕ → Output × ChildOut
collected (out, err) ms status closes = (
  record {
    status = cast_status (last_status status (before_failure ms));
    stdout = out ++ stdout_of (before_failure ms);
    stderr = err ++ stderr_of (before_failure ms);
  },
  ended ms status closes,
)

output_loop-collected :
    (fuel : ℕ) (acc : Text × Text) (ms : List ChannelMsg) (s c : ℕ)
    → length ms ≤ fuel
    → output_loop fuel acc (read_loop ms s c) ≡ some (collected acc ms s c)
unfolding output_loop read_loop read_next
output_loop-collected fuel (out, err) [] s c h = rw (append-nil out, append-nil err) refl
output_loop-collected zero acc (m ∷ ms) s c h = absurd (omega arith)
output_loop-collected (suc fuel) (out, err) (data_msg d ∷ ms) s c h =
    rw (← append_assoc out d (stdout_of (before_failure ms)))
      (output_loop-collected fuel (out ++ d, err) ms s c (omega arith))
output_loop-collected (suc fuel) (out, err) (extended_data d ext ∷ ms) s c h =
    elim (Bool-cases (ext == 1)) [
      | inl e ↦
          rw (e, ← append_assoc err d (stderr_of (before_failure ms)))
            (output_loop-collected fuel (out, err ++ d) ms s c (omega arith))
      | inr e ↦ rw e (output_loop-collected (suc fuel) (out, err) ms s c (omega arith))
    ]
output_loop-collected (suc fuel) acc (exit_status t ∷ ms) s c h =
    output_loop-collected (suc fuel) acc ms t c (omega arith)
output_loop-collected (suc fuel) (out, err) (failure ∷ ms) s c h =
    rw (append-nil out, append-nil err) refl
output_loop-collected (suc fuel) acc (other n ∷ ms) s c h =
    output_loop-collected (suc fuel) acc ms s c (omega arith)

wait_loop-ended :
    (fuel : ℕ) (ms : List ChannelMsg) (s c : ℕ)
    → length ms ≤ fuel
    → wait_loop fuel (read_loop ms s c)
      ≡ some (cast_status (last_status s (before_failure ms)), ended ms s c)
unfolding wait_loop read_loop read_next
wait_loop-ended fuel [] s c h = refl
wait_loop-ended zero (m ∷ ms) s c h = absurd (omega arith)
wait_loop-ended (suc fuel) (data_msg d ∷ ms) s c h = wait_loop-ended fuel ms s c (omega arith)
wait_loop-ended (suc fuel) (extended_data d ext ∷ ms) s c h = elim (Bool-cases (ext == 1)) [
  | inl e ↦ rw e (wait_loop-ended fuel ms s c (omega arith))
  | inr e ↦ rw e (wait_loop-ended (suc fuel) ms s c (omega arith))
]
wait_loop-ended (suc fuel) (exit_status t ∷ ms) s c h =
    wait_loop-ended (suc fuel) ms t c (omega arith)
wait_loop-ended (suc fuel) (failure ∷ ms) s c h = refl
wait_loop-ended (suc fuel) (other n ∷ ms) s c h = wait_loop-ended (suc fuel) ms s c (omega arith)

-- With as much fuel as there are messages, `wait_with_output` returns the data in front of the first
-- failure, in order, as stdout, the extended data of kind 1 as stderr, and as its wait status the
-- lowest byte of the last exit status in front of the failure, moved into the second byte, or zero if
-- there is none; it closes the channel once and leaves what is behind the failure unread. `wait` returns
-- the same status and leaves the channel in the same way.
pub wait_with_output-collected :
    (fuel : ℕ) (ms : List ChannelMsg)
    → length ms ≤ fuel
    → (wait_with_output fuel (new ms)
        ≡ some (
          record {
            status = last_status 0 (before_failure ms) % 256 * 256;
            stdout = stdout_of (before_failure ms);
            stderr = stderr_of (before_failure ms);
          },
          ended ms 0 0,
        ))
      × (wait fuel (new ms) ≡ some (last_status 0 (before_failure ms) % 256 * 256, ended ms 0 0))
unfolding wait_with_output wait read_next
wait_with_output-collected fuel ms h =
    rw (sym (cast_status_lem (last_status 0 (before_failure ms))))
      (output_loop-collected fuel ([], []) ms 0 0 h, wait_loop-ended fuel ms 0 0 h)
