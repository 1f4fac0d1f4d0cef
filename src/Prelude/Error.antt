-- ===== src/Prelude/Error.antt =====
-- Go's `error` values: how each was made, with `fmt.Errorf` calls kept as their format and arguments.
-- A nil error is `none`.
use Prim.Native.String.{String}
use mathlib.Core.Bool.{Bool, true, false, ◌||◌}
use mathlib.Core.List.{List}
use odyssey_core_agent.Prelude.Int.{ℤ}

-- An argument of a format: `%q` or `%s` of a text, `%d` of an integer.
pub data Arg : Type 0 where
  text : String → Arg
  int : ℤ → Arg

-- `external` is an error of a library, with its text; `errorf` is `errors.New`, or `fmt.Errorf` with
-- no `%w`; `wrapf` has one `%w` and `wrap_both` two. The two constants are those of `context`.
pub data Error : Type 0 where
  external : String → Error
  canceled deadline_exceeded : Error
  errorf : String → List Arg → Error
  wrapf : String → List Arg → Error → Error
  wrap_both : String → Error → Error → Error

-- `errors.Is(err, context.DeadlineExceeded)` follows every `%w`.
unfoldable pub is_deadline_exceeded : Error → Bool
is_deadline_exceeded deadline_exceeded = true
is_deadline_exceeded (wrapf format args e) = is_deadline_exceeded e
is_deadline_exceeded (wrap_both format e f) = is_deadline_exceeded e || is_deadline_exceeded f
is_deadline_exceeded _ = false

-- What a call returns that may fail: `(v, nil)` or `(_, err)`.
pub data Result {ℓ} (A : Type ℓ) : Type ℓ where
  ok : A → Result A
  err : Error → Result A
