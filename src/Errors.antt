-- ===== src/Errors.antt =====
-- src/common/all-exceptions.filter.ts: what a client is answered where a handler throws. The log,
-- the time and the path are left out. An error of another library has no `code` here.
use micro_manus_services.Base.{ℕ, Bool, true, false, Option, none, some, if◌then◌else◌, Text, codes}
use micro_manus_services.Db.{Error, http, pg, other, SqlState}

pub record Reply : Type 0 where
  pub status : ℕ
  pub message : Text

abbrev went_wrong : Reply
went_wrong = record { status = 500; message = codes "Something went wrong" }

unfoldable map_pg_error : SqlState → Reply
map_pg_error SqlState.unique_violation = record {
  status = 409;
  message = codes "That already exists";
}
map_pg_error SqlState.foreign_key_violation = record {
  status = 409;
  message = codes "Referenced record not found";
}
map_pg_error SqlState.not_null_violation = record { status = 400; message = codes "Invalid data" }
map_pg_error SqlState.invalid_text_representation = record {
  status = 400;
  message = codes "Invalid data";
}
map_pg_error SqlState.check_violation = went_wrong
map_pg_error SqlState.numeric_value_out_of_range = went_wrong

abbrev reply_to : Bool → Error → Reply
unfolding map_pg_error
reply_to production (http status message) = record { status = status; message = message }
reply_to production (pg state) = map_pg_error state
reply_to true (other status message) = went_wrong
reply_to false (other status message) = record { status = 500; message = message }

-- A stream that has begun is sent nothing.
unfoldable pub catch : (production headers_sent : Bool) → Error → Option Reply
unfolding reply_to
catch production headers_sent e = if headers_sent then none else some (reply_to production e)
