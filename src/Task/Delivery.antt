-- ===== src/Task/Delivery.antt =====
-- What becomes of the outcome of a spawned coroutine.
use fiona.Base.{ℕ, ◌≡◌, refl, true, false, none, some}
use fiona.Executor.Tasks.{update}
use fiona.Task.{Promise, uninit, Body, Scheduler, with_promise}
use fiona.Task.Awaits.{outcome}
use fiona.Task.Spawned.{
  IsRunning, await_end, end_await, Settled, left, update_self, ended, ends_running, suspend_lem,
  resume_lem, destroy_lem, promise_self, ended_self, settled,
}

module _ {ℓ} {A : Type ℓ} (s : Scheduler A) (h parent : ℕ) (b : Body A)
    (c : IsRunning s h none) where
  await_end_lem :
      (d : Scheduler A) × (await_end h parent b s
        ≡ some (record { suspends = true; resumed = some parent; gets = outcome b; scheduler = d }))
      × Settled h s d
  unfolding await_end
  await_end_lem =
      let p : Promise A = record { variant = uninit; continuation = some parent } in
      let s₁ = with_promise h p s in
      let c₁ : IsRunning s₁ h (some parent) = record {
        count = c.count;
        task = c.task;
        promise = promise_self h p s;
      } in
      let s₂ = ended h s₁ (some parent) b in
      let one = update_self h s.map.frames (some 1) in
      let q = ended_self h s₁ (some parent) b in
      (
        record s₂ { map = record (s₂.map) { frames = update s₂.map.frames h none } },
        rw
            (
              suspend_lem h s 1 parent (record { variant = uninit; continuation = none }) c.count
                  c.promise,
              ends_running h s₁ (some parent) c₁ b,
              resume_lem h s₂ 1 b (some parent) one q,
              destroy_lem h s₂ b (some parent) one q,
            )
            refl,
        record {
          tasks = refl;
          dead = update_self h s₂.map.frames none;
          others = settled h s;
          exception = refl;
        },
      )

  end_await_lem :
      (d : Scheduler A) × (end_await h parent b s
        ≡ some (record { suspends = false; resumed = none; gets = outcome b; scheduler = d }))
      × Settled h s d
  unfolding end_await
  end_await_lem =
      let s₁ = ended h s none b in
      let p : Promise A = record { variant = left b; continuation = some parent } in
      let s₂ = with_promise h p s₁ in
      let one = update_self h s.map.frames (some 1) in
      let q = promise_self h p s₁ in
      (
        record s₂ { map = record (s₂.map) { frames = update s₂.map.frames h none } },
        rw
            (
              ends_running h s none c b,
              suspend_lem h s₁ 0 parent (record { variant = left b; continuation = none }) one
                  (ended_self h s none b),
              resume_lem h s₂ 1 b (some parent) one q,
              destroy_lem h s₂ b (some parent) one q,
            )
            refl,
        record {
          tasks = refl;
          dead = update_self h s₂.map.frames none;
          others = settled h s;
          exception = refl;
        },
      )

  -- Whether the parent awaits a running task before its body ends or after, it gets the outcome exactly
  -- once: in the first case it suspends and the end of the task hands over to it, in the second the
  -- end hands over to no one and the parent does not suspend. Either way it gets the value or the
  -- exception that the body ended with; with the awaitable gone the task is off the map, its frame is dead,
  -- no other frame is touched, and no exception is stored.
  pub delivers :
      (d d' : Scheduler A) × (await_end h parent b s
        ≡ some (record { suspends = true; resumed = some parent; gets = outcome b; scheduler = d }))
      × (end_await h parent b s
          ≡ some (record { suspends = false; resumed = none; gets = outcome b; scheduler = d' }))
      × Settled h s d
      × Settled h s d'
  delivers = (
    await_end_lem.0, end_await_lem.0, await_end_lem.1, end_await_lem.1, await_end_lem.2,
    end_await_lem.2,
  )
