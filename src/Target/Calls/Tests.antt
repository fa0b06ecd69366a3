-- ===== src/Target/Calls/Tests.antt =====
-- Some calls of a user, and the theorem at them.
use ipbus.Common.{pos, true, false, [], ◌∷◌, List, map, replicate}
use ipbus.Register.{Register}
use ipbus.Target.Prepare.{prepare_all}
use ipbus.Target.Prepare.Sequence.{AllPrepared}
use ipbus.Target.Calls.{
  Call, reading, writing, changing_bits, summing, dispatching, request_of, prepare_all-calls,
}

abbrev plain : Register
plain = record { name = "plain"; addr = 0x20; masks = []; noninc = false; size = pos 1; msks = [] }

abbrev fifo : Register
fifo = record { name = "fifo"; addr = 0x30; masks = []; noninc = true; size = pos 1; msks = [] }

abbrev calls : List Call
calls =
    reading false plain 700 0
    ∷ writing fifo (replicate 300 5) 1
    ∷ changing_bits plain 0xff 3 2
    ∷ dispatching
    ∷ summing plain 9 3
    ∷ reading true fifo 2 4
    ∷ []

prepare_all-calls_example :
    AllPrepared (map request_of calls) [] (prepare_all [] (map request_of calls))
prepare_all-calls_example = prepare_all-calls calls
