-- ===== src/Net.antt =====
-- The crates that reach the network, as one interface: reqwest (a client with a time limit, GET),
-- url, and the DNS resolver hickory. None of them is modelled, and no law is assumed.
use p2s.Prelude.{ℕ, Bool, Option, List, nat_eq, list_eq, Result, Text, Bytes}

pub record Net : Type 1 where
  -- `Url::parse`, with the error's text
  pub Url : Type 0
  pub parse_url : Text → Result Text Url
  pub scheme : Url → Text
  pub username : Url → Text
  pub password : Url → Option Text
  -- `Client::builder().timeout(secs).build()`, `get(url).send()`, and the response's parts
  pub Response : Type 0
  pub build_client : ℕ → Result Text (Unit {0})
  pub send : Text → Result Text Response
  pub status_is_success : Response → Bool
  pub status_display : Response → Text
  pub body_bytes : Response → Result Text Bytes
  pub body_text : Response → Result Text Text
  -- `txt_lookup(name)`, the records by their `to_string`
  pub txt_lookup : Text → Result Text (List Text)
