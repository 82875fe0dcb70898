-- ===== src/Loopback.antt =====
-- include/fix/core/LoopbackTransport.hpp: a connection in memory, of two ends, each with a channel for the
-- bytes that arrive. The calls of a handler that are posted are listed, in order. Each method is taken as
-- one step.
pub mod Bytewise
mod Tests
use fix_engine.Prelude.{
  ℕ, ◌-◌, min, Bool, true, false, List, [], ◌∷◌, ◌++◌, Bytes, Option, none, some, if◌then◌else◌,
  length, take, drop, ◌==◌,
}

-- The numbers of the error codes that are used, as the network library has them; 0 is none.
pub record ErrorCodes : Type 0 where
  pub operation_aborted : ℕ
  pub broken_pipe : ℕ

-- A call of a read handler, with the bytes that are in its buffer.
pub record ReadCall : Type 0 where
  pub ec : ℕ
  pub bytes : Bytes

-- A pending read is the size of its buffer. What was ever taken in is kept besides.
pub record LoopbackChannel : Type 0 where
  pub inbound : Bytes
  pub pending : Option ℕ
  pub closed : Bool
  pub close_reason : ℕ
  pub read_calls : List ReadCall
  pub taken_in : Bytes

pub record LoopbackConnection : Type 0 where
  pub inbound : LoopbackChannel
  pub outbound : LoopbackChannel
  pub write_log : Bytes
  pub write_calls : List (ℕ × ℕ)

abbrev pub call : LoopbackChannel → ℕ → Bytes → LoopbackChannel
call ch ec bytes = record ch {
  read_calls = ch.read_calls ++ (record { ec = ec; bytes = bytes }) ∷ [];
}

-- The first bytes go to a handler with a buffer of this size.
abbrev pub fulfil : LoopbackChannel → ℕ → LoopbackChannel
fulfil ch size =
    let n = min size (length ch.inbound) in
    call (record ch { inbound = drop n ch.inbound }) 0 (take n ch.inbound)

-- `async_read_some`
unfoldable pub read_some : LoopbackChannel → ℕ → LoopbackChannel
read_some ch size =
    if ch.closed
    then call ch ch.close_reason []
    else if length ch.inbound == 0
    then record ch { pending = some size }
    else fulfil ch size

-- Bytes come into a channel that is not closed: a part of `async_write_some` and of `inject_inbound`.
unfoldable pub wake : LoopbackChannel → Option ℕ → LoopbackChannel
wake ch none = ch
wake ch (some size) = fulfil (record ch { pending = none }) size

abbrev pub arrive : LoopbackChannel → Bytes → LoopbackChannel
arrive ch bytes =
    wake (record ch { inbound = ch.inbound ++ bytes; taken_in = ch.taken_in ++ bytes }) ch.pending

unfoldable pub inject_inbound : LoopbackChannel → Bytes → LoopbackChannel
unfolding wake
inject_inbound ch bytes = if ch.closed then ch else arrive ch bytes

unfoldable pub abort : LoopbackChannel → Option ℕ → ℕ → LoopbackChannel
abort ch none reason = ch
abort ch (some size) reason = call (record ch { pending = none }) reason []

-- `close`, and `simulate_disconnect` with its reason
unfoldable pub close : LoopbackChannel → LoopbackChannel
unfolding abort
close ch = abort (record ch { closed = true }) ch.pending ch.close_reason

unfoldable pub simulate_disconnect : LoopbackChannel → ℕ → LoopbackChannel
unfolding abort
simulate_disconnect ch ec = abort (record ch { closed = true; close_reason = ec }) ch.pending ec

abbrev pub take_write_log : LoopbackConnection → LoopbackConnection × Bytes
take_write_log c = (record c { write_log = [] }, c.write_log)

module _ (codes : ErrorCodes) where
  abbrev pub new_channel : LoopbackChannel
  new_channel = record {
    inbound = [];
    pending = none;
    closed = false;
    close_reason = codes.operation_aborted;
    read_calls = [];
    taken_in = [];
  }

  unfoldable pub write_some : LoopbackConnection → Bytes → LoopbackConnection
  unfolding wake
  write_some c bytes =
      let logged = record c { write_log = c.write_log ++ bytes } in
      if c.outbound.closed
      then record logged { write_calls = c.write_calls ++ (codes.broken_pipe, 0) ∷ [] }
      else record logged {
        outbound = arrive c.outbound bytes;
        write_calls = c.write_calls ++ (0, length bytes) ∷ [];
      }

-- What happens to a channel.
pub data Use : Type 0 where
  reads : ℕ → Use
  gets : Bytes → Use
  closes : Use
  disconnects : ℕ → Use

unfoldable pub use_once : LoopbackChannel → Use → LoopbackChannel
unfolding read_some inject_inbound close simulate_disconnect
use_once ch (reads size) = read_some ch size
use_once ch (gets bytes) = inject_inbound ch bytes
use_once ch closes = close ch
use_once ch (disconnects ec) = simulate_disconnect ch ec

unfoldable pub use_all : LoopbackChannel → List Use → LoopbackChannel
unfolding use_once
use_all ch [] = ch
use_all ch (u ∷ rest) = use_all (use_once ch u) rest
