-- ===== src/Config.antt =====
-- inc/Config.hpp and src/Config.cpp: the configuration, its defaults and what a step of the parser
-- gives. An `int` is the word of 32 bits that holds it.
pub mod Lines
pub mod Numbers
pub mod Directives
pub mod Blocks
pub mod Validate
pub mod Parse
use web_server.Prelude.{ℕ, Bool, true, false, List, []}
use web_server.Bytes.{Bytes, codes}

pub record RouteConfig : Type 0 where
  pub path : Bytes
  pub allowed_methods : List Bytes
  pub root : Bytes
  pub index : Bytes
  pub autoindex : Bool
  pub upload_store : Bytes
  pub redirect_url : Bytes
  pub redirect_code : ℕ
  pub cgi_extension : Bytes
  pub cgi_path : Bytes
  pub client_max_body_size : ℕ
  pub has_client_max_body_size : Bool

abbrev pub new_route : RouteConfig
new_route = record {
  path = codes "/";
  allowed_methods = [];
  root = [];
  index = codes "index.html";
  autoindex = false;
  upload_store = [];
  redirect_url = [];
  redirect_code = 0;
  cgi_extension = [];
  cgi_path = [];
  client_max_body_size = 0;
  has_client_max_body_size = false;
}

pub record ServerConfig : Type 0 where
  pub host : Bytes
  pub port : ℕ
  pub has_listen : Bool
  pub server_names : List Bytes
  pub error_pages : List (ℕ × Bytes)
  pub client_max_body_size : ℕ
  pub routes : List RouteConfig

abbrev pub new_server : ServerConfig
new_server = record {
  host = codes "0.0.0.0";
  port = 8080;
  has_listen = false;
  server_names = [];
  error_pages = [];
  client_max_body_size = 1048576;
  routes = [];
}

-- What a step of the parser gives: a value, `false` with a text in `error_`, or a behaviour that
-- the language does not define, at `words[0]` of an empty vector.
pub data Parsed (A : Type 0) : Type 0 where
  ok : A → Parsed A
  refused : Bytes → Parsed A
  undefined : Parsed A

infixl 5 ◌>>=◌ ◌>>◌
abbrev pub ◌>>=◌ : {A B : Type 0} → Parsed A → (A → Parsed B) → Parsed B
ok a >>= f = f a
refused e >>= f = refused e
undefined >>= f = undefined

abbrev pub ◌>>◌ : {B : Type 0} → Parsed (Unit {0}) → Parsed B → Parsed B
m >> k = m >>= λ _. k
