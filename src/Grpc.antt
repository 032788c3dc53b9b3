-- ===== src/Grpc.antt =====
-- The part of google.golang.org/grpc that the services use: status codes, and what `status.Code`
-- and `status.FromError` give for an error.

pub data Code : Type 0 where
  ok_code canceled unknown invalid_argument deadline_exceeded not_found already_exists : Code
  permission_denied resource_exhausted failed_precondition aborted out_of_range : Code
  unimplemented internal unavailable data_loss unauthenticated : Code

pub Code-discrete : Discrete Code
Code-discrete = hlevel

-- An error with a status, or any other error.
pub data Error : Type 0 where
  status : Code → Error
  other : Error

-- `status.Code`, of an error that is not nil.
unfoldable pub code : Error → Code
code (status c) = c
code other = unknown
