-- ===== src/Dns.antt =====
-- The resolver of src/dns.cpp: `dns_frame`, `dns_awaitable`, `dns_resolver`, and the thread that a resolution
-- starts. `getaddrinfo` is a parameter, from the node, the service and the hints to its result and its
-- list; a pointer is a number and 0 is null.
pub mod Queries
pub mod Entries
pub mod Tests
use fiona.Base.{
  ◌>>=◌, ℕ, suc, ℤ, negsuc, Bool, true, false, Result, ok, err, Option, none, some, List, [], ◌∷◌,
  if◌then◌else◌, is_zero,
}

-- What the `std::thread` of a frame stands for.
pub data Thread : Type 0 where
  no_thread : Thread
  started : Thread
  finished : Thread

pub record DnsFrame : Type 0 where
  pub thread : Thread
  pub node : ℕ
  pub service : ℕ
  pub hints : ℕ
  pub addrlist : ℕ
  pub res : ℤ
  pub wakes : ℕ

-- `dns_resolver`, whose frame is a new one.
abbrev pub dns_resolver : DnsFrame
dns_resolver = record {
  thread = no_thread;
  node = 0;
  service = 0;
  hints = 0;
  addrlist = 0;
  res = negsuc 0;
  wakes = 0;
}

-- `dns_resolver::async_resolve`
unfoldable pub async_resolve : (node service : ℕ) → DnsFrame → DnsFrame
async_resolve node service f = record f { node = node; service = service }

-- `dns_awaitable::await_suspend`; an assignment to a thread that can be joined terminates the program,
-- and is `none`.
unfoldable pub await_suspend : DnsFrame → Option DnsFrame
await_suspend f = elim f.thread [
  | no_thread ↦ some (record f { thread = started })
  | started ↦ none
  | finished ↦ none
]

module _ (getaddrinfo : ℕ → ℕ → ℕ → ℤ × ℕ) where
  -- The function of the thread, which reads the frame when it runs and ends with a wake.
  unfoldable pub run_thread : DnsFrame → DnsFrame
  run_thread f = elim f.thread [
    | no_thread ↦ f
    | started ↦
        (let (res, addrlist) = getaddrinfo f.node f.service f.hints in
          record f { thread = finished; res = res; addrlist = addrlist; wakes = suc f.wakes })
    | finished ↦ f
  ]

  -- `t_.join()`, which waits for the thread; without one it throws.
  unfoldable pub join : DnsFrame → Option DnsFrame
  unfolding run_thread
  join f = elim f.thread [
    | no_thread ↦ none
    | started ↦ some (record (run_thread f) { thread = no_thread })
    | finished ↦ some (record f { thread = no_thread })
  ]

  -- `dns_awaitable::await_resume`: the result of `getaddrinfo` is taken for an errno.
  unfoldable pub await_resume : DnsFrame → Option (Result ℤ ℕ × DnsFrame)
  unfolding join
  await_resume f = join f >>= λ g. some (if is_zero g.res then ok g.addrlist else err g.res, g)
