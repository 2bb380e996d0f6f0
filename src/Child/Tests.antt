-- ===== src/Child/Tests.antt =====
-- Runs of the reader of src/process/child.rs, and the theorems at a concrete channel.
use openrussh_client.Prelude.{codes, List, [], ◌∷◌, ◌*◌, ◌%◌, arith, ◌≡◌, refl, some}
use openrussh_client.Child.{
  ChannelMsg, data_msg, extended_data, exit_status, failure, other, new, wait_with_output, wait,
}
use openrussh_client.Child.Collected.{
  ended, before_failure, last_status, stdout_of, stderr_of, wait_with_output-collected,
}

abbrev messages : List ChannelMsg
messages =
    other 0
    ∷ data_msg (codes "a")
    ∷ exit_status 259
    ∷ extended_data (codes "e") 1
    ∷ extended_data (codes "x") 2
    ∷ data_msg (codes "b")
    ∷ failure
    ∷ data_msg (codes "c")
    ∷ []

-- The status 259 is exit code 3.
output :
    wait_with_output 8 (new messages)
    ≡ some (
      record { status = 3 * 256; stdout = codes "ab"; stderr = codes "e" },
      record { reader = data_msg (codes "c") ∷ []; status = 259; closes = 1 },
    )
unfolding wait_with_output
output = refl

wait_with_output-collected_example :
    (wait_with_output 8 (new messages)
      ≡ some (
        record {
          status = last_status 0 (before_failure messages) % 256 * 256;
          stdout = stdout_of (before_failure messages);
          stderr = stderr_of (before_failure messages);
        },
        ended messages 0 0,
      ))
    × (wait 8 (new messages)
        ≡ some (last_status 0 (before_failure messages) % 256 * 256, ended messages 0 0))
wait_with_output-collected_example = wait_with_output-collected 8 messages (omega arith)
