-- ===== src/ConnectionFactory/Tests.antt =====
-- The laws of connecting and listening where the first try fails.
use fix_engine.Prelude.{ℕ, zero, suc, ◌/◌, ◌≤◌, ◌≡◌, refl, length, arith}
use fix_engine.ConnectionFactory.Errors.{ErrorCodes, success}
use fix_engine.ConnectionFactory.Connect.{Answer, run, backing_off, done}
use fix_engine.ConnectionFactory.ConnectEnds.{Within, run-done}
use fix_engine.ConnectionFactory.Listen
use fix_engine.ConnectionFactory.ListenEnds.{start-done}

-- The numbers of Linux, and those of the resolver behind them.
abbrev linux : ErrorCodes
linux = record {
  operation_aborted = 125;
  host_not_found = 1001;
  host_not_found_try_again = 1002;
  service_not_found = 1008;
  no_recovery = 1003;
  invalid_argument = 22;
  connection_refused = 111;
  timed_out = 110;
  network_unreachable = 101;
  host_unreachable = 113;
  connection_reset = 104;
  address_family_not_supported = 97;
  already_connected = 106;
  too_many_files_open = 24;
  too_many_files_open_in_system = 23;
  address_in_use = 98;
  no_buffer_space = 105;
}

-- The random number is always one half.
abbrev halved : ℕ → ℕ → ℕ
halved n raw = raw / 2

-- The name is found at the second time, and then all goes well.
abbrev second_time : ℕ → Answer
second_time zero = record { ec = linux.host_not_found_try_again; results = 0 }
second_time (suc n) = record { ec = success; results = 1 }

timer_runs_off :
    (n : ℕ) → (run linux halved second_time n).pending ≡ backing_off → (second_time n).ec ≡ success
unfolding run
timer_runs_off zero h = absurd (cc)
timer_runs_off (suc n) h = refl

run-done_example :
    let op = run linux halved second_time 26 in
    (op.pending ≡ done)
    × ((length op.calls ≡ 1)
        × ((op.attempt ≤ 9) × ((length op.delays ≤ 8) × Within 200 3000 op.delays)))
run-done_example =
    run-done linux halved (λ n raw. (omega arith, omega arith)) second_time timer_runs_off

abbrev accepts : Listen.Answers
accepts = record { open_error = 0; option_error = 0; bind_error = 0; listen_error = 0 }

-- The port is in use at first.
abbrev in_use : Listen.Answers
in_use = record {
  open_error = 0;
  option_error = 0;
  bind_error = linux.address_in_use;
  listen_error = 0;
}

abbrev all_well : ℕ → Listen.Answer
all_well n = record { ec = success; net = accepts }

start-done_example :
    let op = Listen.run linux in_use all_well 7 in
    (op.waiting ≡ Listen.done)
    × ((length op.calls ≡ 1)
        × ((op.attempt ≤ 7) × ((length op.delays ≤ 6) × Within 400 3000 op.delays)))
start-done_example = start-done linux in_use all_well (λ n h. refl)
