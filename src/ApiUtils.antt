-- ===== src/ApiUtils.antt =====
-- frontend/src/lib/api/index.ts: `ApiUtils`, the readings of a result of the client.
pub mod Laws
pub mod Tables
use microsvc.Prelude.{
  Bool, not, ◌&&◌, is_some, if◌then◌else◌, Json, null, str, arr, nil, cons, or_default,
}
use microsvc.Client.{ApiResponse, one_error}

pub is_success : ApiResponse → Bool
is_success r = r.success

pub is_error : ApiResponse → Bool
is_error r = not r.success

abbrev message_of : ApiResponse → Json
message_of r = or_default r.message (str "An error occurred")

pub get_error_message : ApiResponse → Json
get_error_message r = if r.success then str "" else message_of r

pub get_error_messages : ApiResponse → Json
get_error_messages r = if r.success then arr nil else or_default r.errors (one_error (message_of r))

pub has_data : ApiResponse → Bool
has_data r = r.success && is_some r.result

-- Data that is falsy is read as `null`, too.
pub get_data : ApiResponse → Json
get_data r = if r.success then or_default r.result null else null
