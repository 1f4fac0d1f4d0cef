-- ===== src/Consumer/Options.antt =====
-- `Options` and `New` of internal/consumer/consumer.go.
use odyssey_core_agent.Prelude.{
  ℕ, ◌*◌, String, Bool, [], ℤ, pos, int_eq, nat_eq, ◌==◌, if◌then◌else◌,
}
use odyssey_core_agent.Prelude.Error.{errorf, Result, ok, err}
use odyssey_core_agent.Bus.Publisher.{stream_events}

-- Durations are in nanoseconds, as bit patterns.
pub record Options : Type 0 where
  pub group : String
  pub consumer : String
  pub stream : String
  pub min_idle : ℕ
  pub max_attempts : ℤ
  pub block : ℕ

abbrev pub second : ℕ
second = 1_000_000_000

abbrev pub default_min_idle : ℕ
default_min_idle = 300 * second

abbrev pub default_max_attempts : ℤ
default_max_attempts = pos 5

abbrev pub read_backoff : ℕ
read_backoff = 2 * second

abbrev pub default_block : ℕ
default_block = second

-- The zero value of an option stands for its default.
unfoldable pub with_defaults : Options → Options
with_defaults opts = record opts {
  stream = if opts.stream == "" then stream_events else opts.stream;
  min_idle = if nat_eq opts.min_idle 0 then default_min_idle else opts.min_idle;
  max_attempts =
      if int_eq opts.max_attempts (pos 0) then default_max_attempts else opts.max_attempts;
  block = if nat_eq opts.block 0 then default_block else opts.block;
}

-- `New`, told whether the client and the handler are nil. The consumer is its options.
unfoldable pub new : Bool → Bool → Options → Result Options
unfolding with_defaults
new client_is_nil handler_is_nil opts =
    if client_is_nil
    then err (errorf "consumer: nil redis client" [])
    else if handler_is_nil
    then err (errorf "consumer: nil handler" [])
    else if opts.group == ""
    then err (errorf "consumer: group must not be empty" [])
    else if opts.consumer == ""
    then err (errorf "consumer: consumer must not be empty" [])
    else ok (with_defaults opts)
