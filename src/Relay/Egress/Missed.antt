-- ===== src/Relay/Egress/Missed.antt =====
-- internal/relay/handler.go, egress: a group evicted between earliestAvailable and get.
use qumo.Common.{ℕ, ◌≡◌, some, [], arith}
use qumo.Relay.Ring.{get}
use qumo.Relay.Ring.Steps.{System}
use qumo.Relay.Drops.{DropDistributor, flush}
use qumo.Relay.Egress.{Egress, waits, at_wait}

pub found_at : (s : System) (p a : ℕ) → (get p s.ring).0 ≡ some a → (s.ring.heap a).pos ≡ p
unfolding get
found_at s p a e = ground arith

pub at_wait_quiet :
    (src : DropDistributor) (e : Egress) → src.pos ≡ e.drops.pos → at_wait src e ≡ ([], e, waits)
unfolding at_wait flush
at_wait_quiet src e same = ground arith
