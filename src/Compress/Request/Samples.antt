-- ===== src/Compress/Request/Samples.antt =====
-- Arguments for the runs on small requests.
use hr.Prelude.{none, some, lit}
use hr.Json.{null}
use hr.Ccr.Digest.{digest}
use hr.Compress.Views.{Serde}
use hr.Compress.Request.{Library}

-- A reader that finds no view in a text.
abbrev pub blind : Serde
blind = record {
  messages_view = λ _. none;
  message_header = λ _. none;
  block_header = λ _. none;
  batch_view = λ _. none;
  batch_request_view = λ _. none;
  responses_view = λ _. none;
  responses_item = λ _. none;
  tools_view = λ _. none;
  tool_schema_view = λ _. none;
  prompt_cache_key_view = λ _. none;
  raw_values = λ _. none;
  string_of = λ _. none;
  value_of = λ _. none;
}

abbrev pub lib : Library
lib = record {
  serde = blind;
  from_slice = λ _. some null;
  to_vec = λ _. lit "null";
  json_string = λ t. t;
  sha256 = digest;
  md5 = digest;
  address_of = λ _. 0;
}
