-- ===== src/Rpc.antt =====
-- src/deepx_sdk/_rpc_transport.py, _native_py.py, _evm.py and api.py: requests over HTTP and
-- connections to the node, each over a pool of endpoints.
mod Pool
pub mod Requests
pub mod Order
pub mod Failover
unfoldable pub use Pool.*
