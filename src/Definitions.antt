-- ===== src/Definitions.antt =====
-- include/fix/core/definitions.hpp, include/fix/core/SeqProvider.hpp and src/Clock.cpp: what the
-- sessions are configured with, the sequence numbers and the clock.
use fix_engine.Prelude.{ℕ, Bool, true, false, Bytes, Option, none, ◌==◌}
use fix_engine.Chars.{codes}

pub data Role : Type 0 where
  initiator acceptor : Role

pub record SessionId : Type 0 where
  pub storage_index : ℕ
  pub id : ℕ

-- `operator==` of two session ids
unfoldable pub same_session : SessionId → SessionId → Bool
same_session a b = b.id == a.id

-- Numbers are those of their C++ types; `encrypt_method` is not negative.
pub record SessionParameters : Type 0 where
  pub fix_version : Bytes
  pub sender_comp_id : Bytes
  pub target_comp_id : Bytes
  pub username : Option Bytes
  pub password : Option Bytes
  pub heart_beat_int : ℕ
  pub encrypt_method : ℕ
  pub initiator_reset_on_logon : Bool
  pub acceptor_reset_on_logon : Bool
  pub send_last_msg_prcessed_seq : Bool

-- The defaults of the struct.
abbrev pub default_parameters : SessionParameters
default_parameters = record {
  fix_version = codes "FIX.4.4";
  sender_comp_id = codes "test_sender";
  target_comp_id = codes "test_target";
  username = none;
  password = none;
  heart_beat_int = 30;
  encrypt_method = 0;
  initiator_reset_on_logon = false;
  acceptor_reset_on_logon = true;
  send_last_msg_prcessed_seq = true;
}

pub record SeqProvider : Type 0 where
  pub incoming_seq_number : ℕ
  pub outgoing_seq_number : ℕ

abbrev pub new_seq_provider : SeqProvider
new_seq_provider = record { incoming_seq_number = 1; outgoing_seq_number = 1 }

unfoldable pub update_in : SeqProvider → ℕ → SeqProvider
update_in p seq_no = record p { incoming_seq_number = seq_no }

unfoldable pub update_out : SeqProvider → ℕ → SeqProvider
update_out p seq_no = record p { outgoing_seq_number = seq_no }

abbrev pub next_out : SeqProvider → ℕ
next_out p = p.outgoing_seq_number

abbrev pub next_in : SeqProvider → ℕ
next_in p = p.incoming_seq_number

-- `reset`, and `initiator_reset`, which is the same
unfoldable pub reset : SeqProvider → SeqProvider
reset p = record { incoming_seq_number = 1; outgoing_seq_number = 1 }

unfoldable pub acceptor_reset : SeqProvider → SeqProvider
acceptor_reset p = record { incoming_seq_number = 2; outgoing_seq_number = 1 }

-- `Clock::now_fix`, a constant for the time being
abbrev pub now_fix : Bytes
now_fix = codes "Now"
