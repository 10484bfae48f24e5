-- ===== src/Systemize/Digest/Batches.antt =====
-- The number of batches that a digest is read in.
use native.Mathlib.Nat.{div-mul-le_self, lt-div-mul-add}
use agentic_dev_kit.Base.{ℕ, zero, suc, ◌+◌, ◌-◌, ◌*◌, ◌/◌, ◌≤◌, ◌<◌, List, length, arith}
use agentic_dev_kit.Systemize.Digest.{PullRequest, Settings, n_batches, build}

n_batches_bounds : (n b : ℕ) → 0 < b → (n ≤ n_batches n b * b) × (n_batches n b * b < n + b)
unfolding n_batches
n_batches_bounds zero b h = (omega arith, omega arith)
n_batches_bounds (suc n) b h =
    let m = suc n + (b - 1) in
    let low = div-mul-le_self m b in
    let high : m < m / b * b + b = lt-div-mul-add h in (omega arith, omega arith)

-- The batches hold every pull request that the digest keeps, and no batch is superfluous.
build-batches :
    (settings : Settings) (prs : List PullRequest)
    → 0 < settings.batch_size
    → (length (build settings prs).prs ≤ (build settings prs).batches * settings.batch_size)
      × ((build settings prs).batches * settings.batch_size
          < length (build settings prs).prs + settings.batch_size)
unfolding build
build-batches settings prs h =
    n_batches_bounds (length (build settings prs).prs) settings.batch_size h
