-- ===== src/Session/Io.antt =====
-- The write queue and the timers: `send_message_`, `send_bytes_`, `do_write`, `do_read`,
-- `schedule_heartbeat_`, `schedule_test_request_timeout_`, `schedule_logon_timeout_`.
-- `none` is a call through the null `conn_`, or a violated `assert` of the store.
use fix_engine.Prelude.{
  ℕ, ◌+◌, Bool, true, false, List, [], ◌∷◌, ◌++◌, Bytes, Option, none, some, leb, if◌then◌else◌,
  length, drop, ◌>>=◌,
}
use fix_engine.MessageStore
use fix_engine.Session.State.{Session, PendingWrite, write_some, read_some, emit, is_running}

unfoldable pub schedule_heartbeat : Session → Session
schedule_heartbeat s = record s { heartbeat_timer = true }

unfoldable pub schedule_test_request_timeout : Session → Session
schedule_test_request_timeout s = record s { inbound_timer = true }

unfoldable pub schedule_logon_timeout : Session → Session
schedule_logon_timeout s = record s { logon_timer = true }

-- `do_write` by the queue: what is left of the front is handed to the connection.
unfoldable pub write_front : Session → List PendingWrite → Option Session
write_front s [] = some (record s { write_inflight = false })
write_front s (front ∷ rest) =
    if s.stopped
    then some s
    else if s.conn
    then some (emit s (write_some (drop front.sent front.bytes)))
    else none

unfoldable pub do_write : Session → Option Session
do_write s = write_front s s.write_q

unfoldable pub send_bytes : Session → Bytes → Option Session
send_bytes s bytes =
    let s' = record s { write_q = s.write_q ++ record { bytes = bytes; sent = 0 } ∷ [] } in
    if s.write_inflight then some s' else do_write (record s' { write_inflight = true })

-- The last step of `send_message_`.
unfoldable pub keep_alive : Session → Session
keep_alive s = if is_running s.state then schedule_heartbeat s else s

-- The arena block that carries the bytes to the queue is left out: it holds a copy of them.
unfoldable pub send_message : Session → Bytes → Bool → Option Session
send_message s msg_wire is_resend = if s.stopped then some s else do
  s1 ← send_bytes s msg_wire
  if is_resend
      then some (keep_alive s1)
      else (MessageStore.store_outbound_message s1.store msg_wire >>= λ store.
          some (keep_alive (record s1 { store = store })))

unfoldable pub do_read : Session → Option Session
do_read s = if s.stopped then some s else if s.conn then some (emit s read_some) else none

-- `classify_readwrite_error` of include/fix/error/Network.hpp
pub data ErrorCode : Type 0 where
  operation_aborted eof would_block try_again timed_out not_connected connection_reset
        connection_aborted broken_pipe network_down network_unreachable host_unreachable
        bad_descriptor other :
      ErrorCode

pub data RetryClass : Type 0 where
  permanent transient canceled : RetryClass

unfoldable pub classify_readwrite_error : ErrorCode → RetryClass
classify_readwrite_error operation_aborted = canceled
classify_readwrite_error eof = canceled
classify_readwrite_error not_connected = permanent
classify_readwrite_error connection_reset = permanent
classify_readwrite_error connection_aborted = permanent
classify_readwrite_error broken_pipe = permanent
classify_readwrite_error network_down = permanent
classify_readwrite_error network_unreachable = permanent
classify_readwrite_error host_unreachable = permanent
classify_readwrite_error bad_descriptor = permanent
classify_readwrite_error _ = transient

-- The completion of a write of `n` bytes: the front moves on, or leaves the queue. `none` also
-- where the queue is empty, of which the source reads the front.
unfoldable pub advance : List PendingWrite → ℕ → Option (List PendingWrite)
advance [] n = none
advance (f ∷ rest) n =
    let sent = f.sent + n in
    some (if leb (length f.bytes) sent then rest else record f { sent = sent } ∷ rest)

unfoldable pub on_written : Session → ℕ → Option Session
on_written s n =
    if s.stopped then some s else (advance s.write_q n >>= λ q. do_write (record s { write_q = q }))
