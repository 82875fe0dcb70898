-- ===== src/RecoveryCache.antt =====
-- include/fix/core/RecoveryCache.hpp and src/RecoveryCache.cpp: the messages that arrived ahead of
-- their turn while a gap is being filled, by sequence number, in a window of 512 numbers.
-- A violated `assert` is `none`. Sizes of allocations are not reduced modulo 2^64: an allocation
-- of such a size fails.
pub mod Slots
pub mod Invariant
pub mod Map
mod Tests
use fix_engine.Prelude.{
  ℕ, ◌+◌, ◌-◌, ◌*◌, ◌%◌, ◌^◌, max, Bool, true, false, not, ◌&&◌, List, Bytes, Option, none, some,
  ltb, ◌==◌, if◌then◌else◌, length, get_or, set, replicate, ◌>>=◌, ◌>>◌, assert,
}
use fix_engine.Prelude.Memory.{Memory, fresh, read, write}

-- `MessageBounds`
pub record MessageBounds : Type 0 where
  pub offset : ℕ
  pub size : ℕ

-- `operator==`
abbrev pub bounds_eq : MessageBounds → MessageBounds → Bool
bounds_eq a b = a.offset == b.offset && a.size == b.size

abbrev pub initial_capacity : ℕ
initial_capacity = 1024 * 64

abbrev pub min_capacity_growth : ℕ
min_capacity_growth = 1024 * 32

abbrev pub window : ℕ
window = 512

-- `KEmpty`
abbrev pub kempty : MessageBounds
kempty = record { offset = 0; size = 0 }

pub record RecoveryCache : Type 0 where
  pub slots : List MessageBounds
  pub base_offset : ℕ
  pub data_ : Memory
  pub buff_capacity : ℕ
  pub buff_size : ℕ
  pub size : ℕ

-- memcpy of the old bytes into a new allocation
pub grow_buffer : RecoveryCache → ℕ → RecoveryCache
grow_buffer c extra = record c {
  data_ = write fresh 0 (read c.data_ 0 c.buff_size);
  buff_capacity = c.buff_capacity + extra;
}

-- The constructor.
pub init : RecoveryCache
unfolding grow_buffer
init =
    grow_buffer
      (record {
        slots = replicate window kempty;
        base_offset = 0;
        data_ = fresh;
        buff_capacity = 0;
        buff_size = 0;
        size = 0;
      })
      initial_capacity

pub empty : RecoveryCache → Bool
empty c = c.size == 0

pub in_window : RecoveryCache → ℕ → Bool
in_window c seqnum = if ltb seqnum c.base_offset then false else ltb (seqnum - c.base_offset) window

-- The cast to `uint16_t` wraps.
abbrev pub slot_index : RecoveryCache → ℕ → ℕ
slot_index c seqnum = (seqnum - c.base_offset) % 2 ^ 16

abbrev pub slot : RecoveryCache → ℕ → MessageBounds
slot c seqnum = get_or c.slots (slot_index c seqnum) kempty

pub contains : RecoveryCache → ℕ → Bool
unfolding in_window
contains c seqnum = in_window c seqnum && not (bounds_eq (slot c seqnum) kempty)

pub reset : RecoveryCache → RecoveryCache
reset c = record c { slots = replicate window kempty; base_offset = 0; buff_size = 0; size = 0 }

-- `clear` of the header
pub clear : RecoveryCache → RecoveryCache
unfolding reset
clear c = reset c

pub start : RecoveryCache → ℕ → RecoveryCache
unfolding reset
start c seqnum = record (reset c) { base_offset = seqnum }

-- The growing step of `insert_message`.
pub make_room : RecoveryCache → ℕ → RecoveryCache
unfolding grow_buffer
make_room c n =
    if ltb c.buff_capacity (c.buff_size + n)
    then grow_buffer c (max (c.buff_size + n - c.buff_capacity) min_capacity_growth)
    else c

-- What `insert_message` does once its `assert` holds: the bytes go behind those already there.
pub append_message : RecoveryCache → Bytes → MessageBounds × RecoveryCache
append_message c msg_wire =
    let c' = make_room c (length msg_wire) in
    (
      record { offset = c'.buff_size; size = length msg_wire },
      record c' {
        data_ = write c'.data_ c'.buff_size msg_wire;
        buff_size = c'.buff_size + length msg_wire;
      },
    )

pub insert_message : RecoveryCache → Bytes → Option (MessageBounds × RecoveryCache)
unfolding append_message
insert_message c msg_wire = do assert (ltb 0 (length msg_wire)); some (append_message c msg_wire)

-- slots_[slot_index(seqnum)] = bounds; ++size_, a `uint16_t`
pub occupy : RecoveryCache → ℕ → MessageBounds → RecoveryCache
occupy c seqnum bounds = record c {
  slots = set c.slots (slot_index c seqnum) bounds;
  size = (c.size + 1) % 2 ^ 16;
}

pub insert : RecoveryCache → ℕ → Bytes → Option RecoveryCache
unfolding in_window contains insert_message occupy
insert c seqnum msg_wire = do
  assert (in_window c seqnum)
  assert (not (contains c seqnum))
  (bounds, c') ← insert_message c msg_wire
  some (occupy c' seqnum bounds)

pub get : RecoveryCache → ℕ → Option Bytes
unfolding contains
get c seqnum = do
  assert (contains c seqnum)
  some (read c.data_ (slot c seqnum).offset (slot c seqnum).size)

-- The body of `consume` behind its `assert`: --size_ on a `uint16_t`, and the buffer is taken up
-- from its start again once no message is left.
pub release : RecoveryCache → ℕ → RecoveryCache
release c seqnum =
    let left = (c.size + 2 ^ 16 - 1) % 2 ^ 16 in
    record c {
      slots = set c.slots (slot_index c seqnum) kempty;
      size = left;
      buff_size = if left == 0 then 0 else c.buff_size;
    }

pub consume : RecoveryCache → ℕ → Option RecoveryCache
unfolding contains release
consume c seqnum = do assert (contains c seqnum); some (release c seqnum)
