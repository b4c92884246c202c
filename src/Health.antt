-- ===== src/Health.antt =====
-- matcher/src/main.rs: `run_health_endpoint`, what it does with one connection. The listener, and
-- the writing of the answer, whose error is dropped, are not modelled.
pub mod Routes
pub mod Served
use text.Mathlib.Text.{◌==◌ as str_eq}
use Prim.Native.Char.{Char, code}
use Prim.Native.String.{[], ◌∷◌, len}
use code_storm.Prelude.{
  ℕ, ◌≤◌, Bool, true, false, ◌||◌, ◌&&◌, String, Option, none, some, ◌==◌, leb, if◌then◌else◌,
}
use code_storm.Prelude.Decimal.{decimal}
use code_storm.Error.{Result, ok, err}
use code_storm.Services.{Services}
use code_storm.Exec.{Exec, pure, attempt, ◌>>=◌}
use code_storm.Engine.Parts.{State, on_redis, on_postgres}

-- `char::is_whitespace`: the characters with the property White_Space.
abbrev pub is_space : ℕ → Bool
is_space n =
    (leb 9 n && leb n 13)
    || n == 32
    || n == 133
    || n == 160
    || n == 5760
    || (leb 8192 n && leb n 8202)
    || n == 8232
    || n == 8233
    || n == 8239
    || n == 8287
    || n == 12_288

abbrev pub is_white : Char → Bool
is_white c = is_space (code c)

-- `request.lines().next()`: up to the end of the line; `none` for an empty text. A `\r` before the
-- end is left, since only words are read of the line.
abbrev pub up_to_newline : String → String
up_to_newline [] = []
up_to_newline (c ∷ s) = let rest = up_to_newline s in if code c == 10 then [] else c ∷ rest

abbrev pub first_line : String → Option String
first_line [] = none
first_line (c ∷ s) = some (up_to_newline (c ∷ s))

-- The text without the white space at its front.
abbrev pub trim_start : String → String
trim_start [] = []
trim_start (c ∷ s) = let rest = trim_start s in if is_white c then rest else c ∷ s

-- The word at the front, and what comes after it.
abbrev pub word : String → String
word [] = []
word (c ∷ s) = let rest = word s in if is_white c then [] else c ∷ rest

abbrev pub after_word : String → String
after_word [] = []
after_word (c ∷ s) = let rest = after_word s in if is_white c then c ∷ s else rest

-- A word that `split_whitespace` gives; there are no empty ones.
abbrev pub found_word : String → Option String
found_word [] = none
found_word (c ∷ s) = some (c ∷ s)

-- `line.split_whitespace().nth(1)`
abbrev pub second_word : String → Option String
second_word line = found_word (word (trim_start (after_word (trim_start line))))

-- The path of a request.
abbrev pub path_in : Option String → String
path_in none = "/"
path_in (some path) = path

abbrev pub line_path : Option String → String
line_path none = "/"
line_path (some line) = path_in (second_word line)

unfoldable pub path_of : String → String
path_of request = line_path (first_line request)

-- A text in front of another one.
abbrev pub append : String → String → String
append [] t = t
append (c ∷ s) t = c ∷ append s t

-- What is formatted into the answer.
pub record Response : Type 0 where
  pub status_line : String
  pub content_length : ℕ
  pub body : String

abbrev pub response : String → String → Response
response status_line body = record {
  status_line = status_line;
  content_length = len body;
  body = body;
}

-- `format!(…)`
abbrev pub response_text : Response → String
response_text r = append r.status_line (
    append "\r\nContent-Type: application/json\r\nContent-Length: "
      (append (decimal r.content_length) (append "\r\n\r\n" r.body)))

abbrev pub is_ok : {A : Type 0} → Result A → Bool
is_ok (ok a) = true
is_ok (err e) = false

abbrev pub readiness : Bool → Bool → Response
readiness pg_ready redis_ready =
    if pg_ready && redis_ready
    then response "HTTP/1.1 200 OK" "{\"status\":\"ready\"}"
    else response "HTTP/1.1 503 Service Unavailable" "{\"status\":\"unready\"}"

module _ (sv : Services) where
  unfoldable pub readyz : Exec (State sv) Response
  readyz = do
    pg_ready ← attempt (on_postgres sv sv.postgres.select_one)
    redis_ready ← attempt (on_redis sv sv.redis.ping)
    pure (readiness (is_ok pg_ready) (is_ok redis_ready))

  unfoldable pub answer : String → Exec (State sv) Response
  answer path =
      if str_eq path "/healthz"
      then pure (response "HTTP/1.1 200 OK" "{\"status\":\"ok\"}")
      else if str_eq path "/readyz"
      then readyz
      else pure (response "HTTP/1.1 404 Not Found" "{\"error\":\"not_found\"}")

  -- What was read of the connection, if anything was, and what is written to it.
  unfoldable pub serve : Option String → Exec (State sv) (Option String)
  serve none = pure none
  serve (some request) = do
    response ← answer (path_of request)
    pure (some (response_text response))
