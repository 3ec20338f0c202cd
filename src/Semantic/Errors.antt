-- ===== src/Semantic/Errors.antt =====
-- compiler/src/semantic/types.rs: the errors and the warnings of the analysis.
use sigil_lang.Prelude.{ℕ, Option, List, Text}

pub data ErrorKind : Type 0 where
  invalid_int_size invalid_float_size : ℕ → ErrorKind
  type_mismatch : Text → Text → ErrorKind
  handle_used_as_value : Text → Text → Text → ErrorKind
  undefined_label : Text → ErrorKind
  duplicate_label : Text → ℕ → ErrorKind
  uninitialized_read : Text → ErrorKind
  possible_bounds_violation : Text → ℕ → ℕ → ErrorKind
  missing_dependency : Text → ErrorKind
  call_arg_count_mismatch : Text → ℕ → ℕ → ErrorKind
  call_arg_type_mismatch : Text → Text → Text → Text → ErrorKind
  call_arg_size_mismatch : Text → Text → ℕ → ℕ → ErrorKind
  output_size_mismatch : Text → ℕ → ℕ → ErrorKind
  hash_mismatch : Text → Text → ErrorKind
  dependency_hash_mismatch : Text → Text → Text → ErrorKind
  composite_computes : Text → ErrorKind
  leaf_calls : Text → ErrorKind
  unconsumed_output : Text → Text → ErrorKind
  pure_violation no_alloc_violation : Text → ErrorKind
  output_not_written : List Text → ErrorKind
  spawn_requires_pattern : Text → ErrorKind
  non_atomic_shared_access : Text → Text → ErrorKind
  channel_type_mismatch : Text → Text → Text → ErrorKind
  memory_leak uninitialized_load : Text → ErrorKind
  path_does_not_terminate : ErrorKind
  channel_send_type_mismatch channel_receive_type_mismatch : Text → Text → Text → ErrorKind
  use_after_free double_free : Text → ℕ → ErrorKind
  free_while_borrowed : Text → Text → ErrorKind
  free_borrowed_handle undefined_variable : Text → ErrorKind

pub record SemanticError : Type 0 where
  pub kind : ErrorKind
  pub line : ℕ
  pub context : Option Text

pub record SemanticWarning : Type 0 where
  pub message : Text
  pub line : ℕ
