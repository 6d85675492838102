-- ===== src/Relay/Admission/Pending.antt =====
-- internal/relay/admit.go, reservePending and admit: the sessions that hold no grant yet.
use qumo.Common.{ℕ, ◌+◌, ◌-◌, ◌<◌, ◌≤◌, ◌≡◌, refl, ltb, if◌then◌else◌, arith, inl, inr, Bool-cases}
use qumo.Relay.Admission.{max_pending, try_pending, undo_pending}

-- `sessions` hold no grant yet, and `failing` calls of reservePending have counted one too many and not
-- undone it.
pub record PendingSystem : Type 0 where
  pub count : ℕ
  pub sessions : ℕ
  pub failing : ℕ

abbrev pub no_sessions : PendingSystem
no_sessions = record { count = 0; sessions = 0; failing = 0 }

pub data PendingStep (limit : ℕ) (s : PendingSystem) : PendingSystem → Type 0 where
  tries : PendingStep limit s (
      if (try_pending limit s.count).0
      then record s { count = (try_pending limit s.count).1; sessions = s.sessions + 1 }
      else record s { count = (try_pending limit s.count).1; failing = s.failing + 1 })
  undoes :
      0 < s.failing
      → PendingStep limit s (record s { count = undo_pending s.count; failing = s.failing - 1 })
  granted_or_ended :
      0 < s.sessions
      → PendingStep limit s (record s { count = s.count - 1; sessions = s.sessions - 1 })

pub data PendingReach (limit : ℕ) (s : PendingSystem) : PendingSystem → Type 0 where
  pending_here : PendingReach limit s s
  pending_later :
      {t u : PendingSystem}
      → PendingReach limit s t
      → PendingStep limit t u
      → PendingReach limit s u

pub record IsLimited (limit : ℕ) (s : PendingSystem) : Type 0 where
  pub counted : s.count ≡ s.sessions + s.failing
  pub bounded : s.sessions ≤ max_pending limit

PendingStep-IsLimited :
    (limit : ℕ) {s t : PendingSystem}
    → PendingStep limit s t
    → IsLimited limit s
    → IsLimited limit t
unfolding try_pending undo_pending
PendingStep-IsLimited limit {s} tries v =
    elim (Bool-cases (ltb (max_pending limit) (s.count + 1))) [
      | inl e ↦ rw e (record { counted = omega (arith, v.counted); bounded = v.bounded })
      | inr e ↦
          rw e (record { counted = omega (arith, v.counted); bounded = ground (arith, v.counted) })
    ]
PendingStep-IsLimited limit {s} (undoes f) v = record {
  counted = omega (arith, v.counted, f);
  bounded = v.bounded;
}
PendingStep-IsLimited limit {s} (granted_or_ended f) v = record {
  counted = omega (arith, v.counted, f);
  bounded = omega (arith, v.bounded);
}

-- However the two accesses of reservePending interleave with others and with sessions that leave, no
-- more sessions than the limit hold no grant, and the count is theirs and that of the calls that have
-- yet to undo what they counted.
pub pending_within :
    (limit : ℕ) {s : PendingSystem} → PendingReach limit no_sessions s → IsLimited limit s
pending_within limit pending_here = record { counted = refl; bounded = omega arith }
pending_within limit (pending_later r st) = PendingStep-IsLimited limit st (pending_within limit r)
