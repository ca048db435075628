-- ===== src/Matter/Observer/Commands.antt =====
-- Which commands an observer of threadlens/collectors/matter_server.py sends.
use threadlens.Prelude.{ℕ, ◌≡◌, true, false, String, none, arith, contains}
use threadlens.Storage.Table.{Table}
use threadlens.Matter.Observer.{Observer, allowed_commands, forbidden_commands}
use threadlens.Matter.Observer.Handle.{send_command, request_command, raises}

-- A command of the allowlist, and none of those that change something.
abbrev pub IsReadOnly : String → Type 0
IsReadOnly c = (contains c allowed_commands ≡ true) × (contains c forbidden_commands ≡ false)

-- A command outside the allowlist raises, whether it is sent or requested, in every state.
pub refuses :
    (command id : String) (tick : ℕ) (o : Observer)
    → contains command allowed_commands ≡ false
    → (send_command command o ≡ none) × (request_command command id tick o ≡ raises)
unfolding send_command request_command
refuses command id tick o h = ground arith
