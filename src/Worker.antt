-- ===== src/Worker.antt =====
-- The counting of requests in asyncio/worker_context.py and trio/worker_context.py, after which a
-- worker ends.
use nonecorn.Prelude.{
  ◌≡◌, ◌+◌, ◌||◌, ℕ, zero, suc, some, none, refl, ltb, arith, false, Option, Bool,
}

pub record WorkerContext : Type 0 where
  pub max_requests : Option ℕ
  pub requests : ℕ
  pub terminate : Bool

abbrev pub init : Option ℕ → WorkerContext
init max_requests = record { max_requests = max_requests; requests = 0; terminate = false }

-- `mark_request`
unfoldable pub mark_request : WorkerContext → WorkerContext
mark_request c = elim c.max_requests [
  | none ↦ c
  | some max ↦ record c {
    requests = suc c.requests;
    terminate = c.terminate || ltb max (suc c.requests);
  }
]

abbrev pub mark_requests : ℕ → WorkerContext → WorkerContext
mark_requests zero c = c
mark_requests (suc n) c = mark_requests n (mark_request c)

mark_requests-some :
    (max n : ℕ) (c : WorkerContext)
    → c.max_requests ≡ some max
    → (c.terminate ≡ ltb max c.requests)
    → (mark_requests n c).terminate ≡ ltb max (c.requests + n)
unfolding mark_request
mark_requests-some max zero c m t = ground (arith, t)
mark_requests-some max (suc n) c m t = ground (arith, mark_requests-some max n (mark_request c))

-- A worker with a limit is told to end just when it has had more requests than the limit.
pub mark_requests_lem : (max n : ℕ) → (mark_requests n (init (some max))).terminate ≡ ltb max n
mark_requests_lem max n =
    ground (arith, mark_requests-some max n (init (some max)) refl (ground arith))
