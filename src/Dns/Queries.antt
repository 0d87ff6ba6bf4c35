-- ===== src/Dns/Queries.antt =====
-- Resolutions one after the other, and one within another.
use mathlib.Core.Option.{some-injective}
use fiona.Base.{
  ◌>>=◌, ℕ, suc, ℤ, ◌+◌, ◌≡◌, refl, sym, ap, ◌∙◌, Result, ok, err, Option, none, some, List, [],
  ◌∷◌, length, if◌then◌else◌, is_zero, arith,
}
use fiona.Dns.{
  Thread, no_thread, started, finished, DnsFrame, async_resolve, await_suspend, run_thread, join,
  await_resume,
}

suspended : (f g : DnsFrame) → await_suspend f ≡ some g → g.thread ≡ started
unfolding await_suspend
suspended f g = go f.thread
  where
    go :
        (t : Thread)
        → elim t [
          | no_thread ↦ some (record f { thread = started })
          | started ↦ none
          | finished ↦ none
        ]
          ≡ some g
        → g.thread ≡ started
    go no_thread e = sym (ap (λ k. k.thread) (some-injective _ _ e))
    go started e = absurd (cc)
    go finished e = absurd (cc)

module _ (getaddrinfo : ℕ → ℕ → ℕ → ℤ × ℕ) where
  -- A `co_await` of a resolution. The thread has finished when its wake resumes the caller.
  abbrev pub resolve : (node service : ℕ) → DnsFrame → Option (Result ℤ ℕ × DnsFrame)
  resolve node service f = await_suspend (async_resolve node service f) >>= λ g.
      await_resume getaddrinfo (run_thread getaddrinfo g)

  abbrev pub resolve_all : List (ℕ × ℕ) → DnsFrame → Option (List (Result ℤ ℕ) × DnsFrame)
  resolve_all [] f = some ([], f)
  resolve_all (q ∷ qs) f =
      resolve q.0 q.1 f >>= λ a. resolve_all qs a.1 >>= λ b. some (a.0 ∷ b.0, b.1)

  -- What `getaddrinfo` says of a query.
  abbrev pub answer : (hints : ℕ) → ℕ × ℕ → Result ℤ ℕ
  answer hints q =
      let (res, addrlist) = getaddrinfo q.0 q.1 hints in
      if is_zero res then ok addrlist else err res

  abbrev pub answers : (hints : ℕ) → List (ℕ × ℕ) → List (Result ℤ ℕ)
  answers hints [] = []
  answers hints (q ∷ qs) = answer hints q ∷ answers hints qs

  resolve_lem :
      (node service : ℕ) (f : DnsFrame)
      → f.thread ≡ no_thread
      → (g : DnsFrame) × (resolve node service f ≡ some (answer f.hints (node, service), g))
        × (g.thread ≡ no_thread)
        × (g.hints ≡ f.hints)
        × (g.wakes ≡ suc f.wakes)
  unfolding async_resolve await_suspend run_thread join await_resume
  resolve_lem node service f e =
      let (res, addrlist) = getaddrinfo node service f.hints in
      (
        record f {
          thread = no_thread;
          node = node;
          service = service;
          res = res;
          addrlist = addrlist;
          wakes = suc f.wakes;
        },
        rw (e) refl,
        refl,
        refl,
        refl,
      )

  -- On a resolver without a thread, resolutions one after the other each give what `getaddrinfo` says
  -- of their own node and service, as a list where its result is zero and as an error with its result
  -- otherwise, in their order; each wakes its caller once, and the resolver is again without a thread.
  pub resolve_all-answers :
      (qs : List (ℕ × ℕ)) (f : DnsFrame)
      → f.thread ≡ no_thread
      → (g : DnsFrame) × (resolve_all qs f ≡ some (answers f.hints qs, g))
        × (g.thread ≡ no_thread)
        × (g.hints ≡ f.hints)
        × (g.wakes ≡ length qs + f.wakes)
  resolve_all-answers [] f e = (f, refl, e, refl, omega arith)
  resolve_all-answers (q ∷ qs) f e =
      let (g, r, t, h, w) = resolve_lem q.0 q.1 f e in
      let (k, s, u, i, v) = resolve_all-answers qs g t in
      (k, rw (r, s) (rw (h) refl), u, i ∙ h, omega (arith, v, w))

  -- A resolution that begins before the last one of the resolver has been awaited to its end terminates
  -- the program, whether the thread has finished or not.
  overlapping_terminates :
      (node service : ℕ) (f g : DnsFrame)
      → await_suspend f ≡ some g
      → (await_suspend (async_resolve node service g) ≡ none)
        × (await_suspend (async_resolve node service (run_thread getaddrinfo g)) ≡ none)
  unfolding async_resolve await_suspend run_thread
  overlapping_terminates node service f g e = let s = suspended f g e in (rw (s) refl, rw (s) refl)
