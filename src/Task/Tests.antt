-- ===== src/Task/Tests.antt =====
-- A task at address 64, spawned on an empty scheduler, whose value is a number.
use fiona.Base.{◌>>=◌, ℕ, ◌≡◌, refl, true, false, err, none, some, [], ◌∷◌, ◌==◌, if◌then◌else◌}
use fiona.Executor.Tasks.{spawn}
use fiona.Task.{hands_over, Scheduler, throws, new_promise, escapes, ends, destroy_awaitable}
use fiona.Task.Spawned.{IsRunning, awaitable, await_end, end_await, Settled}
use fiona.Task.Delivery.{delivers}
use fiona.Task.Unawaited.{unawaited}

abbrev running : Scheduler ℕ
running = record {
  map = record { tasks = 64 ∷ []; frames = λ x. if x == 64 then some 2 else none };
  promise = λ x. new_promise;
  exception_ptr = none;
}

running-IsRunning : IsRunning running 64 none
running-IsRunning = record { count = refl; task = refl; promise = refl }

spawned_count :
    (spawn 64 (record { tasks = []; frames = λ x. none }) >>= λ m. m.frames 64)
    ≡ running.map.frames 64
unfolding spawn
spawned_count = refl

delivers_example :
    (d d' : Scheduler ℕ) × (await_end 64 32 (throws 5) running
      ≡ some (record { suspends = true; resumed = some 32; gets = err 5; scheduler = d }))
    × (end_await 64 32 (throws 5) running
        ≡ some (record { suspends = false; resumed = none; gets = err 5; scheduler = d' }))
    × Settled 64 running d
    × Settled 64 running d'
delivers_example = delivers running 64 32 (throws 5) running-IsRunning

unawaited_example :
    (s₁ d t : Scheduler ℕ) × (destroy_awaitable (awaitable 64) running ≡ some s₁)
    × (ends 64 (throws 5) s₁ ≡ some (escapes 5 s₁))
    × (ends 64 (throws 5) running ≡ some (hands_over none t))
    × (destroy_awaitable (awaitable 64) t ≡ some (record d { exception_ptr = some 5 }))
    × (s₁.exception_ptr ≡ none)
    × (d.exception_ptr ≡ none)
    × (d.map.frames 64 ≡ none)
unawaited_example = unawaited running 64 running-IsRunning (throws 5)
