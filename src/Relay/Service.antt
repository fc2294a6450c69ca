-- ===== src/Relay/Service.antt =====
-- internal/relay/service.go: `Submit`, its types and its database statements.
mod Types
mod Statements
mod Submit
pub use Types.*
unfoldable pub use Statements.{
  insert_request, insert_attempt, mark_request_status, mark_attempt_status, mark_submitted,
  fire_webhook, value_of, new_request, new_attempt, has_hash, set_request_status,
  set_attempt_status,
}
unfoldable pub use Submit.{
  submit, validate, buffered, gas_limit_for, call_msg, transaction_for, relay_with, sign_and_send,
  despite_error, record_attempt, broadcast, reject, write_signer, finish, hold, after_checkout,
  after_load,
}
