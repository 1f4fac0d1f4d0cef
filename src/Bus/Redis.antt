-- ===== src/Bus/Redis.antt =====
-- The Redis client, the JSON codec and the clock as internal/bus and internal/consumer see them. None
-- of this code is in the repository: every operation is a parameter, and its answer and its effect
-- on the world outside are free.
use odyssey_core_agent.Prelude.{ℕ, String, Bool, List, Option, ℤ, Map}
use odyssey_core_agent.Prelude.Error.{Error, Result}
use odyssey_core_agent.Domain.Pipeline.{Event}

-- A field of a stream entry has the type `any`: a text, or something else.
pub data Value : Type 0 where
  text : String → Value
  other : Value

-- `redis.XMessage`
pub record Message : Type 0 where
  pub id : String
  pub values : Map Value

-- `redis.XAddArgs`, with texts as values; `max_len` 0 is no bound.
pub record AddArgs : Type 0 where
  pub stream : String
  pub max_len : ℕ
  pub approx : Bool
  pub values : Map String

-- `redis.XReadGroupArgs`
pub record ReadArgs : Type 0 where
  pub group : String
  pub consumer : String
  pub streams : List String
  pub count : ℕ
  pub block : ℕ

-- `redis.XAutoClaimArgs`
pub record ClaimArgs : Type 0 where
  pub stream : String
  pub group : String
  pub consumer : String
  pub min_idle : ℕ
  pub start : String
  pub count : ℕ

-- `redis.XPendingExtArgs`
pub record PendingArgs : Type 0 where
  pub stream : String
  pub group : String
  pub start : String
  pub stop : String
  pub count : ℕ

pub record Redis : Type 1 where
  pub World : Type 0
  pub x_group_create : World → String → String → String → Option Error × World
  -- The messages of each stream.
  pub x_read_group : World → ReadArgs → Result (List (List Message)) × World
  -- The claimed messages and the next cursor.
  pub x_auto_claim : World → ClaimArgs → Result (List Message × String) × World
  -- The retry count of each pending entry in the range.
  pub x_pending : World → PendingArgs → Result (List ℤ) × World
  pub x_range : World → String → String → String → Result (List Message) × World
  pub x_add : World → AddArgs → Option Error × World
  pub x_ack : World → String → String → String → Option Error × World
  -- `errors.Is(err, redis.Nil)` and `err.Error()`
  pub is_nil : Error → Bool
  pub error_text : Error → String
  -- `ctx.Err()` of the consumer's context.
  pub ctx_err : World → Option Error
  -- `select` on the context and a timer: true if the context was done first.
  pub wait : World → ℕ → Bool × World
  -- `json.Marshal` and `json.Unmarshal` of an event.
  pub encode : Event → Result String
  pub decode : String → Result Event
