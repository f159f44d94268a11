-- ===== src/Hub/Sessions.antt =====
-- The session of `StaticHubClient` in src/hub/client.ts: what its methods change in the client, as
-- steps. A step of a discovery carries the generation of the operation that asked for it, and whether
-- that is still the pending one.
pub mod Expiry
use teslatlas_sdk_typescript.Prelude.{
  ℕ, suc, ◌+◌, ◌≡◌, Bool, true, false, ◌&&◌, ◌||◌, not, Option, none, some, List, [], ◌∷◌, ◌==◌,
  if◌then◌else◌,
}
use teslatlas_sdk_typescript.Js.Text.{Text, text_eq, includes}
use teslatlas_sdk_typescript.Core.Errors.{
  Result, ok, err, ◌>>=◌, ◌>>◌, throw_if, aborted, client_disposed, hub_identity_mismatch,
  unsupported_method,
}
use teslatlas_sdk_typescript.Hub.Drives.{DrivesQuery, DrivesPage, bind_next}

pub record Discovery : Type 0 where
  pub hub_id : Text
  pub capabilities : List Text

pub record Session : Type 0 where
  pub expected_hub_id : Text
  pub discovery : Option Discovery
  pub disposed : Bool
  pub generation : ℕ
  pub cursor_bindings : List (Text × Text)

-- `HubOperation`, whose signal is looked at where it is asserted.
pub record Operation : Type 0 where
  pub generation : ℕ

unfoldable pub is_expired : Session → Operation → Bool
is_expired session operation = not (operation.generation == session.generation) || session.disposed

-- An expired operation and an aborted one both throw an `AbortError`.
unfoldable pub assert_operation : Session → Operation → Bool → Result (Unit {0})
unfolding is_expired
assert_operation session operation aborted_now = do
  throw_if (is_expired session operation) aborted
  throw_if aborted_now aborted

unfoldable pub begin_operation : Session → Bool → Result Operation
unfolding assert_operation
begin_operation session aborted_now = do
  throw_if session.disposed client_disposed
  let operation : Operation = record { generation = session.generation }
  assert_operation session operation aborted_now
  ok operation

-- `dispose()`
unfoldable pub dispose : Session → Session
dispose session = if session.disposed then session else record session {
  disposed = true;
  generation = session.generation + 1;
  cursor_bindings = [];
  discovery = none;
}

-- `logout()`, up to the credentials.
unfoldable pub logout : Session → Result Session
logout session = do
  throw_if session.disposed client_disposed
  ok (record session {
    generation = session.generation + 1;
    cursor_bindings = [];
    discovery = none;
  })

-- What follows a discovery's response, at the end of an operation.
unfoldable pub store_discovery : Session → Operation → Bool → Discovery → Result Session
unfolding assert_operation
store_discovery session operation aborted_now found = do
  assert_operation session operation aborted_now
  throw_if (not (text_eq found.hub_id session.expected_hub_id)) hub_identity_mismatch
  ok (record session { discovery = some found; cursor_bindings = [] })

-- The `catch` of a discovery: only the pending one of this session drops what is stored.
unfoldable pub fail_discovery : Session → Operation → Bool → Session
fail_discovery session operation is_pending =
    if is_pending && (operation.generation == session.generation && not session.disposed)
    then record session { discovery = none; cursor_bindings = [] }
    else session

-- The cursor of a page, which is stored right after the operation is asserted.
unfoldable pub store_cursor : Session → Operation → Bool → DrivesQuery → DrivesPage → Result Session
unfolding assert_operation
store_cursor session operation aborted_now query page = do
  assert_operation session operation aborted_now
  ok (record session { cursor_bindings = bind_next session.cursor_bindings query page })

-- `#requireCapability` where the discovery is stored.
unfoldable pub require_hub_capability :
    Session → Operation → Bool → Discovery → Text → Result (Unit {0})
unfolding assert_operation includes
require_hub_capability session operation aborted_now found capability = do
  assert_operation session operation aborted_now
  throw_if (not (includes found.capabilities capability)) (unsupported_method capability)

abbrev pub or_same : Session → Result Session → Session
or_same session (ok next) = next
or_same session (err e) = session

pub data Step : Type 0 where
  disposes logs_out : Step
  discovers : Operation → Bool → Discovery → Step
  fails : Operation → Bool → Step
  stores : Operation → Bool → DrivesQuery → DrivesPage → Step

-- A method that throws leaves the session as it is.
unfoldable pub step : Session → Step → Session
unfolding dispose logout store_discovery fail_discovery store_cursor
step session disposes = dispose session
step session logs_out = or_same session (logout session)
step session (discovers operation aborted_now found) =
    or_same session (store_discovery session operation aborted_now found)
step session (fails operation is_pending) = fail_discovery session operation is_pending
step session (stores operation aborted_now query page) =
    or_same session (store_cursor session operation aborted_now query page)

unfoldable pub steps : Session → List Step → Session
unfolding step
steps session [] = session
steps session (s ∷ rest) = steps (step session s) rest
