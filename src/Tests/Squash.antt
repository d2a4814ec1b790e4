-- ===== src/Tests/Squash.antt =====
-- Tests of the arbiter of squash requests.
use rv32im_simulator.Prelude.{◌≡◌, refl, true, some, [], ◌∷◌, arith}
use rv32im_simulator.Types.{SquashInfo}
use rv32im_simulator.Tags.{is_older}
use rv32im_simulator.Buffer.Entries.{keep}
use rv32im_simulator.Arbiter.Flush.{FlushArbiter, arbit_result, clear, no_request, receive}
use rv32im_simulator.Arbiter.Flush.Order.{
  Ascending, first, held, place, held-clear, arbit_result-first,
}
use rv32im_simulator.Arbiter.Flush.Receive.{held-receive, receive-Ascending}
use rv32im_simulator.Tests.Samples.{squash_at}

-- The request of tag 31 is older than that of tag 1.
abbrev two_requests : FlushArbiter
two_requests =
    record { request_args = squash_at 31 0; valid = true }
    ∷ no_request
    ∷ record { request_args = squash_at 1 1; valid = true }
    ∷ no_request
    ∷ []

held-receive_example :
    (next : FlushArbiter) × (receive (squash_at 0 2) two_requests ≡ some next)
    × (held next ≡ place (squash_at 0 2) (held two_requests))
unfolding held
held-receive_example = held-receive (squash_at 0 2) two_requests refl (omega arith)

held-clear_example :
    held (clear 0 two_requests)
    ≡ keep (λ (r : SquashInfo). is_older r.squash_tag 0) (held two_requests)
held-clear_example = held-clear 0 two_requests

two_requests-Ascending : Ascending 30 (held two_requests)
unfolding held
two_requests-Ascending =
    ((omega arith, omega arith), (omega arith, tt), ((omega arith, omega arith), tt, tt))

receive-Ascending_example :
    (next : FlushArbiter) × (receive (squash_at 0 2) two_requests ≡ some next)
    × Ascending 30 (held next)
unfolding held
receive-Ascending_example =
    receive-Ascending 30 (squash_at 0 2) two_requests refl (omega arith) (omega arith, omega arith)
      two_requests-Ascending

arbit_result-first_example : arbit_result two_requests ≡ first 30 (held two_requests)
arbit_result-first_example = arbit_result-first 30 two_requests two_requests-Ascending
