-- ===== src/Buffers/Linked.antt =====
-- `recv_buffer_sequence` of include/fiona/buffer.hpp: a doubly linked list threaded through the headers
-- of the buffers, closed by the `sentry_` of the sequence. An address is a number, and 0 is the null
-- pointer. An access to a header that does not live is `none`.
pub mod Chain
pub mod Relink
pub mod Push
pub mod Pop
pub mod Splice
pub mod Join
pub mod Move
pub mod Free
pub mod Walk
pub mod Backwards
pub mod Tests
use fiona.Base.{
  ℕ, zero, suc, ◌+◌, ◌-◌, Bool, true, false, Option, none, some, ◌==◌, if◌then◌else◌, ◌>>=◌, List,
  [], ◌∷◌,
}

-- The `buf_header_impl` at each address: of a buffer, or a sentry.
pub record Headers : Type 0 where
  pub live : ℕ → Bool
  pub size : ℕ → ℕ
  pub capacity : ℕ → ℕ
  pub prev : ℕ → ℕ
  pub next : ℕ → ℕ

abbrev pub at {ℓ} : {A : Type ℓ} → (ℕ → A) → ℕ → A → ℕ → A
at f p v a = if a == p then v else f a

abbrev pub with_next : ℕ → ℕ → Headers → Headers
with_next p q h = record h { next = at h.next p q }

abbrev pub with_prev : ℕ → ℕ → Headers → Headers
with_prev p q h = record h { prev = at h.prev p q }

abbrev pub without_header : ℕ → Headers → Headers
without_header p h = record h { live = at h.live p false }

-- `detail::set_next`
unfoldable pub set_next : (buf next : ℕ) → Headers → Option Headers
set_next p q h = if h.live p then some (with_next p q h) else none

-- `detail::set_prev`
unfoldable pub set_prev : (buf prev : ℕ) → Headers → Option Headers
set_prev p q h = if h.live p then some (with_prev p q h) else none

-- `detail::get_next`
unfoldable pub get_next : ℕ → Headers → Option ℕ
get_next p h = if h.live p then some (h.next p) else none

-- `detail::get_prev`
unfoldable pub get_prev : ℕ → Headers → Option ℕ
get_prev p h = if h.live p then some (h.prev p) else none

-- `recv_buffer::aligned_delete`
unfoldable pub aligned_delete : ℕ → Headers → Option Headers
aligned_delete p h = if h.live p then some (without_header p h) else none

-- `recv_buffer_sequence_view`, with the address of the sentry.
pub record Sequence : Type 0 where
  pub sentry : ℕ
  pub head : ℕ
  pub tail : ℕ
  pub num_bufs : ℕ

abbrev pub emptied : Sequence → Sequence
emptied s = record s { head = 0; tail = 0; num_bufs = 0 }

-- `push_back`, of the buffer whose header is at `p`.
unfoldable pub push_back : Sequence → (p : ℕ) → Headers → Option (Sequence × Headers)
unfolding set_next set_prev
push_back s p h = do
  h₁ ← if s.tail == 0 then some h else (set_next s.tail p h >>= set_prev p s.tail)
  h₂ ← set_next p s.sentry h₁
  h₃ ← set_prev s.sentry p h₂
  some (
    record s { head = if s.head == 0 then p else s.head; tail = p; num_bufs = suc s.num_bufs },
    h₃,
  )

-- `pop_front`, with the address of the header taken off. `none` also where the assertion fails.
unfoldable pub pop_front : Sequence → Headers → Option (ℕ × Sequence × Headers)
unfolding get_next set_next set_prev
pop_front s h = if s.num_bufs == 0 then none else (do
  head ← get_next s.head h
  h₁ ← set_next s.head 0 h
  h₂ ← set_prev s.head 0 h₁
  h₃ ← set_prev head 0 h₂
  some (
    s.head,
    if s.head == s.tail then emptied s else record s { head = head; num_bufs = s.num_bufs - 1 },
    h₃,
  ))

-- The move constructor, into a new sequence with its sentry at `sentry`: the new sequence, and what is
-- left of `rhs`.
unfoldable pub move :
    (sentry : ℕ) → (rhs : Sequence) → Headers → Option (Sequence × Sequence × Headers)
unfolding set_next set_prev
move sentry rhs h = do
  h₁ ← set_prev rhs.sentry 0 h
  h₂ ← set_prev sentry rhs.tail h₁
  h₃ ← if rhs.tail == 0 then some h₂ else set_next rhs.tail sentry h₂
  some (record rhs { sentry = sentry }, emptied rhs, h₃)

-- The loop of `free_list`, with fuel; `none` also where the fuel runs out.
unfoldable pub free_loop : (fuel sentry p : ℕ) → Headers → Option Headers
unfolding get_next aligned_delete
free_loop zero sentry p h = none
free_loop (suc fuel) sentry p h = elim (p == sentry) [
  | true ↦ some h
  | false ↦ get_next p h >>= λ q. aligned_delete p h >>= free_loop fuel sentry q
]

-- `free_list`, which is also the destructor.
unfoldable pub free_list : (fuel : ℕ) → Sequence → Headers → Option (Sequence × Headers)
unfolding free_loop set_next set_prev
free_list fuel s h = if s.head == 0 then some (s, h) else (do
  h₁ ← free_loop fuel s.sentry s.head h
  h₂ ← set_next s.sentry 0 h₁
  h₃ ← set_prev s.sentry 0 h₂
  some (emptied s, h₃))

-- The move assignment, between two sequences.
unfoldable pub assign :
    (fuel : ℕ) → (s rhs : Sequence) → Headers → Option (Sequence × Sequence × Headers)
unfolding free_list move
assign fuel s rhs h = do
  (s', h') ← if s.num_bufs == 0 then some (s, h) else free_list fuel s h
  move s'.sentry rhs h'

-- `concat`: the sequence, and what is left of the argument.
unfoldable pub concat : (s rhs : Sequence) → Headers → Option (Sequence × Sequence × Headers)
unfolding set_next set_prev assign
concat s rhs h =
    if rhs.num_bufs == 0
    then some (s, rhs, h)
    else if s.num_bufs == 0
    then assign 0 s rhs h
    else (do
      h₁ ← set_next s.tail rhs.head h
      h₂ ← set_prev rhs.head s.tail h₁
      h₃ ← set_next rhs.tail s.sentry h₂
      h₄ ← set_prev s.sentry rhs.tail h₃
      h₅ ← set_prev rhs.sentry 0 h₄
      some (record s { tail = rhs.tail; num_bufs = s.num_bufs + rhs.num_bufs }, emptied rhs, h₅))

-- A walk from `p` by `iterator::operator++` until `end`, with fuel: the addresses that are visited.
unfoldable pub forwards : (fuel end p : ℕ) → Headers → Option (List ℕ)
unfolding get_next
forwards zero end p h = none
forwards (suc fuel) end p h = elim (p == end) [
  | true ↦ some []
  | false ↦ get_next p h >>= λ q. forwards fuel end q h >>= λ ps. some (p ∷ ps)
]

-- `begin()`
unfoldable pub begin : Sequence → ℕ
begin s = if s.num_bufs == 0 then s.sentry else s.head

-- A loop from `p` down to `begin` by `iterator::operator--`, with fuel: the addresses that are visited.
unfoldable pub backwards : (fuel begin p : ℕ) → Headers → Option (List ℕ)
unfolding get_prev
backwards zero start p h = none
backwards (suc fuel) start p h = elim (p == start) [
  | true ↦ some []
  | false ↦ get_prev p h >>= λ q. backwards fuel start q h >>= λ ps. some (q ∷ ps)
]

-- `front()` and `back()`; `none` where the assertion fails.
unfoldable pub front : Sequence → Option ℕ
front s = if s.num_bufs == 0 then none else some s.head

unfoldable pub back : Sequence → Option ℕ
back s = if s.num_bufs == 0 then none else some s.tail
