-- ===== src/Lib.antt =====
-- Verification of the DeepX Python SDK: the life of a submitted transaction, from its nonce to
-- its outcome.
--
-- The program sends extrinsics to a node and answers, for each of them, what became of it. An
-- encoder gives a transaction a nonce; a handle (PendingTransaction) carries its status through
-- a table of legal transitions and wakes the callers that wait; a tracker feeds the handle from
-- the notifications of the node and from the events of the blocks; a manager keeps handles by
-- hash and client order id and queues their updates for a listener; the client limits how many
-- transactions are under way; a gate orders the encodings; pools of endpoints carry the requests
-- over HTTP; the clients of the market pallets build the calls; a recovery walks the blocks that
-- the notifications missed; a transport carries the requests and the subscriptions over one
-- connection at a time; errors are made from the codes of a registry.
--
-- Prelude: names, Boolean tests, lists measured by native numbers, Python's dict as an
--   association list, its str as a list of code points, and results that return or raise.
-- Status, Ticket, Pending: src/deepx_sdk/_pending_tx.py. Status has TxStatus, the terminal
--   statuses and the table; Ticket the record of a handle (`new_ticket` is __init__); Pending
--   the mark_* methods, `transition` and `finish_with_error`; Pending.Waits the waits, the
--   timeouts, retry and replacement. Pending.Invariant makes one step relation of all of them
--   (`perform`), over which Coherence, Lifecycle and History argue by induction.
-- Diagnostics: src/deepx_sdk/_tx_diagnostics.py, the errors and the reading of a node's reason.
-- Tracker: src/deepx_sdk/_async_tracker.py. Status is _handle_status, Events the body of
--   resolve_block for one transaction with the filters of _native_py.py, Reconcile
--   finalize_ancestor and mark_reconciliation_required. Safety and Calls argue over any sequence
--   of these calls, News over one notification, Firsts and Verdict over one block. Blocks is resolve_block
--   over all transactions with the candidates and applied transactions of a block, Once and
--   Matches are about a second resolution, Early about a transaction that is not answered yet;
--   Admission is the handler of RPCError in _open_subscription.
-- Recovery: src/deepx_sdk/_async_recovery.py. Walk is the loop over batches of block numbers,
--   whose visits asyncio.gather runs concurrently: a visit is in three parts, which follow those
--   of the other visits in the order in which the replies arrive, an argument of the walk. Batches
--   and Coverage are about what has run when a walk ends. Diagnose is what a scan writes on one
--   transaction; Scan is _scan_best_chain, _scan_finalized_chain and _classify_stale_pending
--   over the store of the tracker; Finality is _reconcile_finalized, Drain one iteration of
--   _drain_best_scans and _drain_finalized_scans. Judgement, Progress, Keeps, Safety, Canonical
--   and Iteration argue over them.
-- Transport: src/deepx_sdk/_async_transport.py. Requests is _request and _fail_requests,
--   Responses _dispatch_message, Endpoints the endpoints and delays. Run makes one step relation
--   of them, over which Notes, Sent and Submission argue; Notifications and Attempts are about
--   the queues and the attempts to connect.
-- Nonce: src/deepx_sdk/_async_encoder.py, TimestampNonceAllocator; Encoding is
--   encode_pallet_call with the calls on the allocator that come in between.
-- Scale: src/deepx_sdk/_native_py.py, SCALE integers and the joining of event batches.
-- Registry: src/deepx_sdk/_error_codes.py and _errors.py, the table of chain errors.
-- Manager: src/deepx_sdk/_transaction_manager.py.
-- Capacity: src/deepx_sdk/async_client.py, the counts that limit submission (`acquire` is
--   _acquire_capacity) and the reservations behind them; Release is _release_for_status and the
--   ends of _submit, Accounts and Backlog argue over each operation, Life over the states that a
--   client reaches.
-- Gate: src/deepx_sdk/_async_encoder.py, _PriorityGate as a step relation on its counts;
--   Exclusion and Wakeups argue over the states that it reaches.
-- Rpc: src/deepx_sdk/_rpc_transport.py (Pool), with the loops over endpoints of _native_py.py,
--   _evm.py and api.py (Requests); Order is about the pool, Failover about the requests.
-- Abi: src/deepx_sdk/_abi.py. Contracts has the encoder of each function, Spot the ones that
--   select a function; Requests declares the functions by their types, CallData states the call
--   data of the contract ABI, Pairs is about pairs and orders.
-- Units: src/deepx_sdk/units.py (Numbers), compared in Exact and Precision with whole numbers.
-- Trading: src/deepx_sdk/_perp_market.py and _spot_market.py. Json is what json.loads gives,
--   Values the reading of integers, Orders the parameters of the calls, Perp and Spot the
--   functions, which return how they end and what they have submitted. Bits and Limbs are about
--   integers, Modify and Slippage about what is submitted.
-- Witnesses: runs on concrete inputs.
--
-- A method that changes an object is a function from its state to whether it raised and the
-- state after it, which is kept on the branch that raises too. Times are whole numbers, given to
-- the method as the readings it makes of its clocks; Python's ids are numbers. Five loops run on
-- fuel: the search for a free nonce has one more than the number of reserved nonces, and since
-- each round that goes on rules out another reserved nonce this is enough (`next` never runs
-- out); the bit length of a number has the number itself, which is more than its halvings; the
-- walk over blocks has as many rounds as there are numbers in its range, which is enough for
-- batches of any size but 0; the walk over the included blocks as many as there are blocks; and
-- the digits of a number are counted with the number itself as fuel.
--
-- Not under this model: notifications that reach the tracker during the walk of a recovery; the
-- durations of TxTimings in fractions of milliseconds, which the
-- program only reports; rendering and redaction of errors; exponents of a Decimal outside the
-- range of its context; the node, its metadata and the decoding by it (parameters of the
-- definitions that use them), as are keccak, abi_encode and the submission of a call of a market
-- pallet; int on texts with other than ASCII digits; headers, proxies and the display of
-- endpoints; the WebSocket and the tasks that read from it, the subscriptions and the watchdog
-- of the recovery, the connection of the client, the pallets of lending and subaccounts, the
-- views of the markets, the web API and the bridge.
pub mod Abi
pub mod Capacity
pub mod Diagnostics
pub mod Gate
pub mod Manager
pub mod Nonce
pub mod Pending
pub mod Prelude
pub mod Recovery
pub mod Registry
pub mod Rpc
pub mod Scale
pub mod Status
pub mod Ticket
pub mod Tracker
pub mod Trading
pub mod Transport
pub mod Units
pub mod Witnesses
