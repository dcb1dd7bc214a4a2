-- ===== src/Operation.antt =====
-- runit.go: the control operations, the integers that Go gives them, their names and the bytes that
-- the supervisors read from the control file.
pub mod Codes
use go_runit.Common.{ℕ, String, Bool, ◌==◌}

pub data Operation : Type 0 where
  op_unknown op_up op_once op_down op_term op_interrupt op_hup op_alarm : Operation
  op_quit op_kill op_pause op_cont op_usr1 op_usr2 op_exit op_status : Operation
  op_restart : Operation

-- The aliases `OpStart` and `OpStop`.
abbrev pub op_start : Operation
op_start = op_up

abbrev pub op_stop : Operation
op_stop = op_down

-- The constants' values: `iota` in the first block; `iota + 100` in the third line of the second.
abbrev pub index : Operation → ℕ
index op_unknown = 0
index op_up = 1
index op_once = 2
index op_down = 3
index op_term = 4
index op_interrupt = 5
index op_hup = 6
index op_alarm = 7
index op_quit = 8
index op_kill = 9
index op_pause = 10
index op_cont = 11
index op_usr1 = 12
index op_usr2 = 13
index op_exit = 14
index op_status = 15
index op_restart = 102

-- Go compares operations as integers.
abbrev pub op_eq : Operation → Operation → Bool
op_eq a b = index a == index b

-- `Operation.String`.
unfoldable pub op_string : Operation → String
op_string op_up = "up"
op_string op_once = "once"
op_string op_down = "down"
op_string op_term = "term"
op_string op_interrupt = "interrupt"
op_string op_hup = "hup"
op_string op_alarm = "alarm"
op_string op_quit = "quit"
op_string op_kill = "kill"
op_string op_pause = "pause"
op_string op_cont = "cont"
op_string op_usr1 = "usr1"
op_string op_usr2 = "usr2"
op_string op_exit = "exit"
op_string op_status = "status"
op_string op_restart = "restart"
op_string op_unknown = "unknown"

-- `Operation.Byte`.
unfoldable pub op_byte : Operation → ℕ
op_byte op_up = b'u'
op_byte op_once = b'o'
op_byte op_down = b'd'
op_byte op_term = b't'
op_byte op_interrupt = b'i'
op_byte op_hup = b'h'
op_byte op_alarm = b'a'
op_byte op_quit = b'q'
op_byte op_kill = b'k'
op_byte op_pause = b'p'
op_byte op_cont = b'c'
op_byte op_usr1 = b'1'
op_byte op_usr2 = b'2'
op_byte op_exit = b'x'
op_byte _ = 0
