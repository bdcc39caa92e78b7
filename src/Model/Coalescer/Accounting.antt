-- ===== src/Model/Coalescer/Accounting.antt =====
-- Every accepted refresh request is completed: the bookkeeping of the coalescer.
use limit_halo.Prelude.{ℕ, zero, suc, ◌≡◌, refl, String, true, false, some, arith}
use limit_halo.Prelude.Result.{ok}
use limit_halo.Model.Coalescer.{Coalescer, at, put, request, complete}

-- Nothing is pending of a provider that is not active.
pub record IsCoalesced (c : Coalescer) : Type 0 where
  pub codex : c.pending.codex ≡ true → c.active.codex ≡ true
  pub claude : c.pending.claude ≡ true → c.active.claude ≡ true

pub request-IsCoalesced :
    (c : Coalescer) (provider : String) → IsCoalesced c → IsCoalesced (request c provider).1
unfolding request
request-IsCoalesced c provider h = ground arith

pub complete-IsCoalesced :
    (c : Coalescer) (provider : String) → IsCoalesced c → IsCoalesced (complete c provider).1
unfolding complete
complete-IsCoalesced c provider h = ground arith

-- `n` further requests.
abbrev pub requests : ℕ → String → Coalescer → Coalescer
requests zero provider c = c
requests (suc n) provider c = requests n provider (request c provider).1

-- A request while one is pending changes nothing.
request_again :
    (c : Coalescer) (provider : String)
    → at provider c.active ≡ some true
    → at provider c.pending ≡ some true
    → request c provider ≡ (ok false, c)
unfolding request at put
request_again c provider a p = ground arith

requests_again :
    (n : ℕ) (c : Coalescer) (provider : String)
    → at provider c.active ≡ some true
    → at provider c.pending ≡ some true
    → requests n provider c ≡ c
requests_again zero c provider a p = refl
requests_again (suc n) c provider a p =
    rw (request_again c provider a p) (requests_again n c provider a p)

-- The first request while a refresh is active.
request_pending :
    (c : Coalescer) (provider : String)
    → at provider c.active ≡ some false
    → at provider c.pending ≡ some false
    → (at provider (request (request c provider).1 provider).1.active ≡ some true)
      × (at provider (request (request c provider).1 provider).1.pending ≡ some true)
      × ((complete (request (request c provider).1 provider).1 provider).0 ≡ ok true)
      × (complete (complete (request (request c provider).1 provider).1 provider).1 provider
          ≡ (ok false, c))
unfolding request complete at put
request_pending c provider a p = ground arith

-- Any number of manual requests, one or more, that come while a refresh of an idle provider is
-- active lead to exactly one more refresh: the first completion asks for it, the second does not
-- and leaves the coalescer as it was before the first request.
pub requests_coalesce :
    (c : Coalescer) (provider : String) (n : ℕ)
    → at provider c.active ≡ some false
    → at provider c.pending ≡ some false
    → let busy = requests (suc n) provider (request c provider).1 in
      ((complete busy provider).0 ≡ ok true)
      × (complete (complete busy provider).1 provider ≡ (ok false, c))
requests_coalesce c provider n a p =
    let (active, waiting, again, last) = request_pending c provider a p in
    rw (requests_again n (request (request c provider).1 provider).1 provider active waiting)
      (again, last)
