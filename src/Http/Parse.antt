-- ===== src/Http/Parse.antt =====
-- The limits, errors and head that the request parser and the body decoder share:
-- include/sparenode/http/request/http_request_parser.hpp.
use spare_node.Base.{ℕ, ◌-◌, ◌^◌, Bool}

-- The largest `std::size_t`.
abbrev pub size_max : ℕ
size_max = 2 ^ 64 - 1

pub data Method : Type 0 where
  get head post put delete_method options : Method

pub record Limits : Type 0 where
  pub max_request_line_bytes : ℕ
  pub max_header_bytes : ℕ
  pub max_header_count : ℕ
  pub max_body_bytes : ℕ
  pub max_chunk_line_bytes : ℕ
  pub max_chunk_metadata_bytes : ℕ
  pub max_trailer_bytes : ℕ
  pub max_trailer_count : ℕ

pub data ParseErrorCode : Type 0 where
  request_line_too_large headers_too_large too_many_headers body_too_large : ParseErrorCode
  invalid_line_ending malformed_request_line invalid_method unsupported_method : ParseErrorCode
  invalid_request_target unsupported_http_version malformed_header folded_header : ParseErrorCode
  missing_host duplicate_host invalid_host invalid_content_length : ParseErrorCode
  duplicate_content_length unsupported_transfer_encoding : ParseErrorCode
  invalid_transfer_encoding conflicting_message_length malformed_chunk : ParseErrorCode
  chunk_metadata_too_large invalid_trailer trailers_too_large incomplete_body : ParseErrorCode
  malformed_http_version : ParseErrorCode

pub record ParseError : Type 0 where
  pub code : ParseErrorCode
  pub byte_offset : ℕ

-- The fields of `HttpRequestHead` that select the body framing.
pub record Framing : Type 0 where
  pub consumed_bytes : ℕ
  pub content_length : ℕ
  pub chunked : Bool
