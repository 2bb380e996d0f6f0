-- ===== src/Lib.antt =====
-- openrussh-client: a client for SSH that reads the files of OpenSSH.
--
-- The program takes `[user@]host[:port]`, looks it up in an OpenSSH configuration, connects to the host
-- over the chain of its `ProxyJump`s, checks each server's key against known_hosts, tries the
-- authentication methods of the configuration in turn, and runs commands on the host or forwards local
-- sockets to it. A command is one string for the remote shell, which is built from arguments that need
-- quoting.
--
-- Which file models which part, by paths from the root of the repository:
--   Prelude                 names shared by all files; tests on numbers, lists, texts as UTF-8 bytes.
--   Prelude/Effects         results with errors, and code over a state that may fail: an `async fn` is a
--                           function from the state of what it talks to, and `?` is its bind.
--                           Prelude/Keeps has the rules for what such code keeps.
--   Escape, Escape/Pieces   `Escaper` of src/process/escape/mod.rs. An escaper is its buffer and the
--                           surrounding quotes; an operation returns the escaper after it.
--   Escape/Arg              the trait `Arg` as a record, and an instance for each kind of argument of
--                           src/process/escape/ (str, primitives, env, display, tuple, slice, concat).
--   Escape/Number           `format_into` of the integers.
--   Escape/Bytes, Escape/Chars
--                           what the escaper appends, byte by byte, and for a character.
--   Shell, Shell/Run        how a POSIX shell cuts a command string into tokens, and in Shell/Grammar
--                           which tokens it takes for a list of commands. This is the specification
--                           that the escaper and the builder are held to; it models no code of the
--                           repository.
--   Escape/RawText          what the loop of `RawBytes` appends.
--   Escape/Reading, Escape/Raw, Escape/Sequence
--                           the shell reads what the arguments write as the texts they stand for.
--   Command                 `helpers::arg` and `helpers::redir` of src/process/mod.rs, and the
--                           redirections of src/process/cmd.rs; Command/Key is the check of a name in
--                           `helpers::env`.
--   Command/Builder         `Command` of src/process/cmd.rs, with its type state as an index, and the
--                           bytes of a command for stdin (src/process/shell.rs).
--   Command/Call            the calls that a program may make, as an indexed data type, and the tokens
--                           they ask for.
--   Command/Script          sequences of calls; Command/Reading, Command/Assignment,
--                           Command/Descriptor and Command/Redirection hold the lemmas for the parts
--                           of a command, and Command/Grammar those for its syntax.
--   Command/Expand          `ExpandCommand` of src/process/escape/cmd.rs.
--   KnownHosts              src/known_hosts.rs: Alg the algorithms, Pattern the host patterns, Entry the
--                           sorted entries and the search among them, Handler the construction and the
--                           checks, Channels the answers to channels that a server opens.
--                           KnownHosts/Handler/Loaded, Check and Decide read the result of a check off
--                           the lines of the file, KnownHosts/Handler/WellFormed is the invariant of the
--                           entries, KnownHosts/Pattern/Literal the reading of patterns without
--                           wildcards; KnownHosts/SameLines and KnownHosts/Monotone compare
--                           files. KnownHosts/Files is the reading of a file.
--   KnownHosts/Preferred    `known_public_key_algs`, `PreferredPublicKeyAlgIter` and
--                           `update_preferred_config`: Mask is the `u8` of known algorithms, Known the
--                           loop that fills it, Order, Due and Collected follow the iterator, and Lines
--                           relates the result to the lines of the file.
--   Auth                    src/auth.rs: the methods that a configuration gives; Auth/KeyFile is
--                           `check_pub_or_priv`, with the lemmas on its searches in Auth/KeyFile/Search
--                           and Auth/KeyFile/Kind. Auth/Listed has the lists of methods that a
--                           configuration stands for, and Auth/Stack, Auth/Bare, Auth/Configured and
--                           Auth/Identities the lemmas on them.
--   Auth/Reply, Auth/Agent, Auth/Session
--                           the results and errors of a request, the loop over an agent's identities,
--                           and `auth` with the methods of `Authenticator`. Auth/Loop is the shape of a
--                           loop over attempts, which Connect has as well. Auth/Iter is
--                           `AuthMethodsIter`, and Auth/Session/Authenticator the value that a program
--                           keeps for its requests.
--   Config                  src/config.rs: `Chain::iter`; Config/Target is `Target::parse`,
--                           Config/Paths the expansion of paths, Config/Parsers the parsers, with
--                           Config/Parsers/Login for `parse_auth`.
--   Connect                 src/connect.rs: `connect`, `connect_stream`, `connect_impl` and the loop over
--                           the methods. Connect/Steps says what one connection is made of and
--                           Connect/Linked what a way of them is, as relations between states;
--                           Connect/Made has the implementations of `MakeHandler`. Connect/Queried joins
--                           the configuration to a connection, Connect/Trusted the known hosts, and
--                           Connect/Identities and Connect/Confined the files that the configuration
--                           names. Connect/Handlers
--                           has `Context` and the methods of `Connection` that connect nothing.
--   Process                 `exec` and `shell` of src/process/cmd.rs and src/process/shell.rs, and the
--                           same methods of `Connection`; Process/Tty is `tty_conf` of
--                           src/process/mod.rs, and Process/Tty/Wanted a description of its result by
--                           itself. Process/Sent joins a built command to its request.
--   Child                   src/process/child.rs: the reader of a process's output, over the sequence of
--                           messages that the channel will give; Child/Input has the requests on its
--                           input, and Child/Handle the child with both. Child/Status has the lemma
--                           on the wait status.
--   Forward                 src/local_forwarding/: opening a channel for a local socket, and `wait`;
--                           Forward/Waited follows a forwarding to its end.
--   Errors                  src/error.rs: the texts and the sources of the errors.
--   Client                  a query, a connection checked against known hosts, and a command over it.
--   Tests below each part   runs of the code, and the theorems at concrete inputs.
--
-- Texts are lists of UTF-8 bytes, and numbers are natural numbers; bytes and ports carry their bounds as
-- conditions, and a wrap-around is written out. Code outside the repository is a parameter: the crates
-- `glob` and `hmac` (KnownHosts/Pattern), the validation of a certificate (a field of `Certificate`),
-- the files' first bytes (Auth/KeyFile), the keys' files, the requests of authentication and the agent's
-- client (`World` in Auth/Session), the connections of russh (`Network` in Connect), its channels
-- (`Sessions` in Process, `Writers` in Child/Input, `Channels` in Forward, `Replies` in
-- KnownHosts/Channels), the terminal (Process/Tty), `SshConfig::query` and the environment (Config). Such
-- a call takes and returns a state of any type, so that the theorems hold whatever it answers and in
-- whatever way it changes. The first bytes of a key file alone are a function of its path, outside that
-- state: they do not change while the methods of a configuration are chosen, and what is read is
-- told by what the result depends on. An error of another crate is its text in src/auth.rs, and a parameter
-- elsewhere. A SHA-256 digest is the number it spells, so that equal digests are equal numbers.
--
-- Loops: most follow a list. `format_into` has a round of fuel for each digit, `wait_with_output` and
-- `wait` one for each message, the iterators of bastions and of algorithms one for each item, and the
-- loop over `ProxyJump`s one for each jump; that the fuel is enough is a theorem in each case, for the
-- last where the hosts can be ranked.
--
-- Not modelled: the copying of bytes between a socket and a channel, which is tokio's, and tasks that are
-- spawned to wait for it; that `connect_impl` drops the handle of a bastion when it has the next, since a
-- handle has no state of its own here; `make_reader` and `make_writer` of src/process/child.rs, which are
-- of russh alone; src/lib.rs, which has re-exports, and the integration tests under tests/.
pub mod Prelude
pub mod Escape
pub mod Shell
pub mod Command
pub mod KnownHosts
pub mod Auth
pub mod Child
pub mod Config
pub mod Connect
pub mod Process
pub mod Forward
pub mod Errors
pub mod Client
