-- ===== src/Exceptions.antt =====
-- exceptions.py (src/veltix/exceptions.py), and the built-in exceptions that the code raises or
-- catches. A message is reduced to the condition that it names.

pub data Exn : Type 0 where
  -- RequestError of request.py
  no_single_payload content_not_bytes content_too_large : Exn
  -- RequestError of parser.py
  too_short too_large invalid_magic size_mismatch unknown_type_code hash_mismatch : Exn
  -- MessageTypeError of types.py
  duplicate_name system_without_code no_available_code code_not_int code_out_of_range : Exn
  code_reserved system_code_taken code_taken : Exn
  -- SenderError, InvalidContentError
  no_connection no_sender no_client invalid_content : Exn
  -- built-in
  zero_division overflow_error struct_error unicode_error json_error : Exn
  connection_reset connection_aborted broken_pipe blocking_io timed_out refused os_error : Exn
  key_error value_error type_error attribute_error assertion_error : Exn
  other_error : Exn
