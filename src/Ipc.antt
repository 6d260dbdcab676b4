-- ===== src/Ipc.antt =====
-- The JSON-RPC messages of daemon/crates/a2ex-ipc/src/lib.rs.
use a2ex.Base.{String}
use a2ex.Base.Int.{ℤ}

abbrev json_rpc_version : String
json_rpc_version = "2.0"

abbrev pub daemon_control_method : String
daemon_control_method = "daemon.authorizeExecution"

pub data LocalTransport : Type 0 where
  unix_domain_socket named_pipe : LocalTransport

pub record JsonRpcRequest (P : Type 0) : Type 0 where
  pub jsonrpc : String
  pub id : String
  pub method : String
  pub params : P

pub record JsonRpcError : Type 0 where
  pub code : ℤ  -- i32
  pub message : String

pub record JsonRpcSuccess (R : Type 0) : Type 0 where
  pub jsonrpc : String
  pub id : String
  pub result : R

pub record JsonRpcFailure : Type 0 where
  pub jsonrpc : String
  pub id : String
  pub error : JsonRpcError

pub data JsonRpcResponse (R : Type 0) : Type 0 where
  success : JsonRpcSuccess R → JsonRpcResponse R
  failure : JsonRpcFailure → JsonRpcResponse R

-- `JsonRpcResponse::success`
abbrev pub respond : {R : Type 0} → String → R → JsonRpcResponse R
respond id result = success (record { jsonrpc = json_rpc_version; id = id; result = result })

-- `JsonRpcResponse::failure`
abbrev pub refuse : {R : Type 0} → String → ℤ → String → JsonRpcResponse R
refuse id code message = failure (record {
  jsonrpc = json_rpc_version;
  id = id;
  error = record { code = code; message = message };
})
