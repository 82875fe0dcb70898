-- ===== src/Loopback/Bytewise.antt =====
-- include/fix/core/LoopbackTransport.hpp: the bytes that arrive are read in their order.
use fix_engine.Prelude.{
  ℕ, min, ◌≡◌, refl, sym, ◌∙◌, ap, true, List, [], ◌∷◌, ◌++◌, append-nil, append_assoc, Bytes,
  Option, none, some, if_either, length, take, drop, take-append-drop, ◌==◌,
}
use fix_engine.Loopback.{
  ErrorCodes, ReadCall, LoopbackChannel, call, fulfil, read_some, wake, arrive, inject_inbound,
  abort, close, simulate_disconnect, new_channel, Use, reads, gets, closes, disconnects, use_once,
  use_all,
}

-- The bytes that the handlers got, one after the other.
unfoldable pub got : List ReadCall → Bytes
got [] = []
got (c ∷ calls) = c.bytes ++ got calls

got-append : (calls : List ReadCall) (c : ReadCall) → got (calls ++ c ∷ []) ≡ got calls ++ c.bytes
unfolding got
got-append [] c = append-nil c.bytes
got-append (d ∷ calls) c =
    ap (λ r. d.bytes ++ r) (got-append calls c) ∙ sym (append_assoc d.bytes (got calls) c.bytes)

-- What was got and what still waits is what was taken in.
pub record IsWhole (ch : LoopbackChannel) : Type 0 where
  pub whole : got ch.read_calls ++ ch.inbound ≡ ch.taken_in

call_lem : (ch : LoopbackChannel) (ec : ℕ) → IsWhole ch → IsWhole (call ch ec [])
call_lem ch ec w = record {
  whole =
      ap (λ r. r ++ ch.inbound)
        (got-append ch.read_calls (record { ec = ec; bytes = [] }) ∙ append-nil (got ch.read_calls))
      ∙ w.whole;
}

fulfil_lem : (ch : LoopbackChannel) (size : ℕ) → IsWhole ch → IsWhole (fulfil ch size)
fulfil_lem ch size w =
    let n = min size (length ch.inbound) in
    let head = take n ch.inbound in
    record {
      whole =
          ap (λ r. r ++ drop n ch.inbound)
            (got-append ch.read_calls (record { ec = 0; bytes = head }))
          ∙ append_assoc (got ch.read_calls) head (drop n ch.inbound)
          ∙ ap (λ r. got ch.read_calls ++ r) (take-append-drop n ch.inbound)
          ∙ w.whole;
    }

wake_lem : (ch : LoopbackChannel) (p : Option ℕ) → IsWhole ch → IsWhole (wake ch p)
unfolding wake
wake_lem ch none w = w
wake_lem ch (some size) w =
    fulfil_lem (record ch { pending = none }) size (record { whole = w.whole })

abort_lem :
    (ch : LoopbackChannel) (p : Option ℕ) (reason : ℕ) → IsWhole ch → IsWhole (abort ch p reason)
unfolding abort
abort_lem ch none reason w = w
abort_lem ch (some size) reason w =
    call_lem (record ch { pending = none }) reason (record { whole = w.whole })

arrive_lem : (ch : LoopbackChannel) (bytes : Bytes) → IsWhole ch → IsWhole (arrive ch bytes)
arrive_lem ch bytes w =
    wake_lem (record ch { inbound = ch.inbound ++ bytes; taken_in = ch.taken_in ++ bytes })
      ch.pending
      (record {
        whole =
            sym (append_assoc (got ch.read_calls) ch.inbound bytes) ∙ ap (λ r. r ++ bytes) w.whole;
      })

use_once_lem : (ch : LoopbackChannel) (u : Use) → IsWhole ch → IsWhole (use_once ch u)
unfolding use_once read_some inject_inbound close simulate_disconnect
use_once_lem ch (reads size) w =
    if_either IsWhole ch.closed _ _ (λ c. call_lem ch ch.close_reason w)
      (λ o.
        if_either IsWhole (length ch.inbound == 0) _ _ (λ e. record { whole = w.whole })
          (λ e. fulfil_lem ch size w))
use_once_lem ch (gets bytes) w =
    if_either IsWhole ch.closed _ _ (λ c. w) (λ o. arrive_lem ch bytes w)
use_once_lem ch closes w =
    abort_lem (record ch { closed = true }) ch.pending ch.close_reason (record { whole = w.whole })
use_once_lem ch (disconnects ec) w =
    abort_lem (record ch { closed = true; close_reason = ec }) ch.pending ec
      (record { whole = w.whole })

use_all_lem : (ch : LoopbackChannel) (uses : List Use) → IsWhole ch → IsWhole (use_all ch uses)
unfolding use_all
use_all_lem ch [] w = w
use_all_lem ch (u ∷ rest) w = use_all_lem (use_once ch u) rest (use_once_lem ch u w)

-- However reads, arrivals and closes of a channel follow one another, the bytes that its read handlers
-- got, followed by those that wait, are the bytes that it took in, in their order.
pub use_all-IsWhole :
    (codes : ErrorCodes) (uses : List Use) → IsWhole (use_all (new_channel codes) uses)
unfolding got
use_all-IsWhole codes uses = use_all_lem (new_channel codes) uses (record { whole = refl })
