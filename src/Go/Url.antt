-- ===== src/Go/Url.antt =====
-- `url.URL`, as far as the program uses it. `url.Parse` is a parameter where it is called.
use goshorty.Prelude.{String}

pub record ParsedUrl : Type 0 where
  pub scheme : String
  pub host : String
  pub path : String
  pub hostname : String
