-- ===== src/Executor/Wake/Tests.antt =====
-- A coroutine at address 0x7f00 is woken, and a task at the same address posted.
use fiona.Errno.{einval}
use fiona.Base.{◌≡◌, refl, pos, true, false, ok, err, none, some, arith}
use fiona.Executor.Wake.{wake, post, PipeFrame, nothing, process_pipe}
use fiona.Executor.Wake.Words.{IsAddress, reading, whole, rearmed, wake-process_pipe}

abbrev idle : PipeFrame
idle = record { h = none; buffer = 0; fd = pos 5; count = 1 }

word-IsAddress : IsAddress 0x7f00
word-IsAddress = record { aligned = refl; word = omega arith }

woken : wake true none 0x7f00 ≡ ok 0x7f01
unfolding wake
woken = refl

posted : post none 0x7f00 ≡ ok 0x7f02
unfolding post
posted = refl

-- The runtime is gone.
too_late : wake false none 0x7f00 ≡ err (pos einval)
unfolding wake
too_late = refl

wake-process_pipe_example :
    process_pipe (reading idle 0x7f01) whole
    ≡ ok (record idle { buffer = 0x7f01; h = some 0x7f00; count = 2 }, nothing, rearmed idle)
wake-process_pipe_example = wake-process_pipe idle 0x7f00 0x7f01 word-IsAddress woken
