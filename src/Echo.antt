-- ===== src/Echo.antt =====
-- src/brpc/server.cpp and src/brpc/client.cpp: the echo service, the start of its server, and the
-- loop of the client. What brpc answers is given by arguments.
pub mod Calls
pub mod Startup
mod Tests
use vcpkg_test.Prelude.{
  ℕ, ◌+◌, ◌^◌, Bool, true, false, Option, none, some, List, [], ◌∷◌, ◌++◌, Bytes, codes, ltb,
  if◌then◌else◌, ◌⊎◌, inl, inr, ◌>>=◌, ℤ, pos, negsuc,
}

-- What the service reads and fills: a message and the attachment of the controller.
pub record Packet : Type 0 where
  pub message : Bytes
  pub attachment : Bytes

-- `EchoServiceImpl::Echo`: the new response for a request and the flag `echo_attachment`.
unfoldable pub echo : Bool → Packet → Packet → Packet
echo echo_attachment request response = record {
  message = request.message;
  attachment =
      if echo_attachment then response.attachment ++ request.attachment else response.attachment;
}

abbrev pub empty_packet : Packet
empty_packet = record { message = []; attachment = [] }

-- A line of the client's log.
pub data Line : Type 0 where
  received : Packet → Line
  warning : Bytes → Line
  no_channel : Line
  quitting : Line

-- `request.set_message("hello world")`, and `FLAGS_attachment` appended to an empty attachment.
abbrev pub hello_request : Bytes → Packet
hello_request attachment = record { message = codes "hello world"; attachment = [] ++ attachment }

-- `if (!cntl.Failed()) … else …`: a call that fails has an error text.
unfoldable pub log_line : Packet ⊎ Bytes → Line
log_line (inl response) = received response
log_line (inr error_text) = warning error_text

-- `log_id ++` on an `int`, which has no value past 2^31 - 1.
unfoldable pub increment_int : ℕ → Option ℕ
increment_int n = if ltb (n + 1) (2 ^ 31) then some (n + 1) else none

module _ (call : ℕ → Packet → Packet ⊎ Bytes) (attachment : Bytes) where
  -- `while (!brpc::IsAskedToQuit()) { … }` and the line behind it. `call` is `stub.Echo` with the
  -- log id that is set; the list is the answers of `IsAskedToQuit`. The result is `none` if the
  -- loop still runs when they end, and if `log_id` overflows.
  unfoldable pub client_loop : List Bool → ℕ → Option (List Line)
  client_loop [] log_id = none
  client_loop (true ∷ answers) log_id = some (quitting ∷ [])
  client_loop (false ∷ answers) log_id = do
    log_id' ← increment_int log_id
    lines ← client_loop answers log_id'
    some (log_line (call log_id (hello_request attachment)) ∷ lines)

  -- `main` of the client: its log and what it returns, from the result of `channel.Init`.
  unfoldable pub client_main : Bool → List Bool → Option (List Line × ℤ)
  client_main init_fails answers =
      let ran = client_loop answers 0 in
      if init_fails then some (no_channel ∷ [], negsuc 0) else (do lines ← ran; some (lines, pos 0))

-- What brpc answers at the start of the server: the results of `AddService` and `Start` are zero or
-- not, and `str2endpoint` parses an address or not.
pub record Brpc (EndPoint : Type 0) : Type 0 where
  pub add_service_fails : Bool
  pub str_to_endpoint : Bytes → Option EndPoint
  pub any_address : ℕ → EndPoint
  pub start_fails : EndPoint → Bool

pub data Exit (EndPoint : Type 0) : Type 0 where
  failed_to_add invalid_address failed_to_start : Exit EndPoint
  ran_on : EndPoint → Exit EndPoint

module _ {EndPoint : Type 0} (brpc : Brpc EndPoint) where
  -- The address: `FLAGS_listen_addr` if it is not empty, else `FLAGS_port` of any address.
  unfoldable pub endpoint : Bytes → ℕ → Option EndPoint
  endpoint [] port = some (brpc.any_address port)
  endpoint (c ∷ cs) port = brpc.str_to_endpoint (c ∷ cs)

  abbrev start_server : Option EndPoint → Exit EndPoint
  start_server none = invalid_address
  start_server (some point) = if brpc.start_fails point then failed_to_start else ran_on point

  -- `main` of the server up to its return.
  unfoldable pub server_main : Bytes → ℕ → Exit EndPoint
  server_main listen_addr port =
      if brpc.add_service_fails then failed_to_add else start_server (endpoint listen_addr port)

-- What `main` returns.
unfoldable pub exit_code : {EndPoint : Type 0} → Exit EndPoint → ℤ
exit_code failed_to_add = negsuc 0
exit_code invalid_address = negsuc 0
exit_code failed_to_start = negsuc 0
exit_code (ran_on point) = pos 0
