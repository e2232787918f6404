-- ===== src/Middleware.antt =====
-- src/middleware: authentication and rate limiting, which run before every handler.
pub mod Auth
pub mod RateLimiter
use melis.Common.{ℕ, String, List}

-- What a handler answers, as far as the middleware sees it.
pub record Response : Type 0 where
  pub status : ℕ
  pub headers : List (String × String)
  pub body : String
