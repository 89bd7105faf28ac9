-- ===== src/Params/Errors.antt =====
-- The errors of statement.go.

pub data ParamError : Type 0 where
  mixed_parameters : ParamError
  bad_prefix : ParamError
  slice_out_of_range : ParamError
