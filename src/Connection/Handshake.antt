-- ===== src/Connection/Handshake.antt =====
-- blocking/connection.rs: what `open` makes of the answer to its init command.
use ruslock.Prelude.{ℕ, ◌+◌, List, none, ◌==◌, if◌then◌else◌}
use ruslock.Constants.{command_result_succed}
use ruslock.Error.{Result, ok, err, ◌>>=◌, protocol, expected_init_result, server}
use ruslock.Options.{ClientOptions}
use ruslock.Protocol.Id.{Id16}
use ruslock.Protocol.Command.{Command, EncodedCommand}
use ruslock.Protocol.Codec.{decode_response}
use ruslock.Protocol.Reply.{CommandResult, InitCommandResult, init, ping, lock, result_code}

-- `let CommandResult::Init(result) = response else { .. }`.
unfoldable pub expect_init : CommandResult → Result InitCommandResult
expect_init (init r) = ok r
expect_init (ping r) = err (protocol expected_init_result)
expect_init (lock r) = err (protocol expected_init_result)

-- From the response header to the init result.
unfoldable pub greeting : List ℕ → Result InitCommandResult
unfolding decode_response result_code expect_init
greeting header = do
  response ← decode_response header none
  if result_code response == command_result_succed
      then expect_init response
      else err (server (result_code response))

-- The init command of `open`, by the id that the client has or gets. The request id is fresh.
unfoldable pub init_command : Id16 → Id16 → Command
init_command request_id client_id =
    Command.init (record { request_id = request_id; client_id = client_id })

-- The timeout of `recv_timeout`, in milliseconds. Histories of the connection do not count time, so
-- there it is no part of a step.
unfoldable pub receive_timeout : ClientOptions → EncodedCommand → ℕ
receive_timeout options e = e.timeout + options.command_timeout_grace
