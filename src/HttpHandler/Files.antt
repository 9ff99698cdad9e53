-- ===== src/HttpHandler/Files.antt =====
-- What src/HTTPHandler.cpp asks of the system: the answers of its calls, by path, during one
-- request, and the calls that change a file.
use web_server.Prelude.{ℕ, Bool, Option, none, some, List, []}
use web_server.Bytes.{Bytes}
use web_server.StdMap.{Order, lookup}
use web_server.Config.{RouteConfig, ServerConfig}
use web_server.HttpRequest.{HttpRequest}

pub record Files : Type 0 where
  -- What a stream reads, or `none` where the file cannot be opened.
  pub read_file : Bytes → Option Bytes
  -- `none` where `stat` fails, or whether the path is a directory.
  pub stat : Bytes → Option Bool
  -- `access` with F_OK, R_OK and W_OK
  pub exists : Bytes → Bool
  pub readable : Bytes → Bool
  pub writable : Bytes → Bool
  -- The names of a directory, in the order of `readdir`.
  pub list_dir : Bytes → Option (List Bytes)
  -- Whether a mode that `stat` has not set says directory.
  pub stale_is_dir : Bytes → Bool
  -- Whether the file can be opened for writing, or for appending, and removed.
  pub can_write : Bytes → Bool
  pub can_append : Bytes → Bool
  pub can_unlink : Bytes → Bool
  -- The output of the CGI program of a request.
  pub run_cgi : HttpRequest → RouteConfig → Bytes

pub data FileCall : Type 0 where
  write_file : Bytes → Bytes → FileCall
  append_file : Bytes → Bytes → FileCall
  unlink : Bytes → FileCall

or_none : Option Bytes → Bytes
or_none none = []
or_none (some page) = page

unfoldable pub get_error_page : ⦃o : Order ℕ⦄ → ℕ → ServerConfig → Bytes
unfolding or_none
get_error_page status_code server = or_none (lookup status_code server.error_pages)
