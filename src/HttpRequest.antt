-- ===== src/HttpRequest.antt =====
-- inc/HTTPRequest.hpp and src/HTTPRequest.cpp: the state of the request parser, its getters and
-- its resets. The parsing steps are in the children, one for each part of a request.
pub mod Resume
pub mod Line
pub mod Chunked
pub mod Parse
use web_server.Prelude.{
  ℕ, zero, suc, ◌+◌, Bool, true, false, Option, none, some, List, [], ◌∷◌, ◌++◌, if◌then◌else◌,
  ◌==◌,
}
use web_server.Bytes.{Bytes, tolower}
use web_server.StdMap.{lookup, bytes_order}

pub data ParseState : Type 0 where
  parssing_request_line parssing_headers parssing_body parssing_complete parssing_error : ParseState

pub data ChunkedState : Type 0 where
  chunk_size chunk_data chunk_data_crlf chunk_trailers : ChunkedState

pub record HttpRequest : Type 0 where
  pub buffer : Bytes
  pub state : ParseState
  pub chunked_state : ChunkedState
  pub chunk_remaining : ℕ
  pub is_chunked : Bool
  pub method : Bytes
  pub request_target : Bytes
  pub protocol : Bytes
  pub headers : List (Bytes × Bytes)
  pub body : Bytes
  pub max_body_size : ℕ
  pub body_too_large : Bool

-- The constructor.
abbrev pub new_request : HttpRequest
new_request = record {
  buffer = [];
  state = parssing_request_line;
  chunked_state = chunk_size;
  chunk_remaining = 0;
  is_chunked = false;
  method = [];
  request_target = [];
  protocol = [];
  headers = [];
  body = [];
  max_body_size = 0;
  body_too_large = false;
}

unfoldable pub str_to_lower : Bytes → Bytes
unfolding tolower
str_to_lower [] = []
str_to_lower (c ∷ s) = tolower c ∷ str_to_lower s

abbrev value_or_empty : Option Bytes → Bytes
value_or_empty none = []
value_or_empty (some v) = v

unfoldable pub get_header_value : HttpRequest → Bytes → Bytes
get_header_value r key = value_or_empty (lookup (str_to_lower key) r.headers)

abbrev pub is_parssing_error : ParseState → Bool
is_parssing_error parssing_error = true
is_parssing_error _ = false

unfoldable pub is_error : HttpRequest → Bool
is_error r = is_parssing_error r.state

abbrev headers_done_in : ParseState → Bool
headers_done_in parssing_body = true
headers_done_in parssing_complete = true
headers_done_in _ = false

unfoldable pub is_headers_done : HttpRequest → Bool
is_headers_done r = headers_done_in r.state

unfoldable pub set_max_body_size : ℕ → HttpRequest → HttpRequest
set_max_body_size size r = record r { max_body_size = size }

abbrev pub chunked_state_number : ChunkedState → ℕ
chunked_state_number chunk_size = 0
chunked_state_number chunk_data = 1
chunked_state_number chunk_data_crlf = 2
chunked_state_number chunk_trailers = 3

unfoldable pub get_chunked_state : HttpRequest → ℕ
get_chunked_state r = chunked_state_number r.chunked_state

unfoldable pub reset : HttpRequest → HttpRequest
reset r = record r {
  buffer = [];
  state = parssing_request_line;
  chunked_state = chunk_size;
  chunk_remaining = 0;
  is_chunked = false;
  method = [];
  request_target = [];
  protocol = [];
  headers = [];
  body = [];
  max_body_size = 0;
  body_too_large = false;
}

-- `buffer_ += buffer`
abbrev pub extend : HttpRequest → Bytes → HttpRequest
extend r more = record r { buffer = r.buffer ++ more }
