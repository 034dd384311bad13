-- ===== src/Llm/Types.antt =====
-- The constants and types of internal/llm/llm.go. Times and durations are nanoseconds.
use fact_checker.Base.{ℕ, ◌*◌, [], Str, Bool, ◌||◌, eqb, take, length, leb, if◌then◌else◌, ◌==◌}

abbrev pub second : ℕ
second = 1000000000

abbrev pub max_backoff : ℕ
max_backoff = 60 * second

abbrev pub max_retries : ℕ
max_retries = 4

abbrev pub default_request_interval : ℕ
default_request_interval = 500000000

abbrev pub default_timeout : ℕ
default_timeout = 120 * second

abbrev pub default_max_tokens : ℕ
default_max_tokens = 8192

-- The transient statuses.
unfoldable pub retry_status : ℕ → Bool
retry_status s =
    eqb s 408 || eqb s 409 || eqb s 429 || eqb s 500 || eqb s 502 || eqb s 503 || eqb s 504

-- The errors of a call: OverloadError, statusError with its Retry-After, and the others by message.
pub data CallError : Type 0 where
  overload : Str → CallError
  bad_status : ℕ → Str → CallError
  failed : Str → CallError

pub record Response : Type 0 where
  pub text : Str
  pub model : Str
  pub input_tokens : ℕ
  pub output_tokens : ℕ
  pub finish_reason : Str
  pub latency : ℕ

pub record Client : Type 0 where
  pub api_key : Str
  pub model : Str
  pub base_url : Str
  pub interval : ℕ
  pub timeout : ℕ
  pub max_token : ℕ

pub record ClientOptions : Type 0 where
  pub request_interval : ℕ
  pub timeout : ℕ
  pub max_tokens : ℕ

unfoldable pub truncate : Str → ℕ → Str
truncate s n = if leb (length s) n then s else take n s

unfoldable pub or_default : Str → Str → Str
or_default value fallback = if value == [] then fallback else value
