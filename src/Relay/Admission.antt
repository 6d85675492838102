-- ===== src/Relay/Admission.antt =====
-- internal/relay/admit.go: the connect check of a session, and the count of the sessions that hold no
-- grant yet.
pub mod Pending
mod Examples
use qumo.Common.{
  ℕ, ◌+◌, ◌-◌, Bool, true, false, not, ◌&&◌, ◌||◌, Option, none, some, List, [], ltb, ◌==◌,
  if◌then◌else◌, Result, ok, err, max,
}
use qumo.Token.Grant.{Grant, empty_grant, is_empty}
use qumo.Token.Claims.{Time, leeway}
use qumo.Auth.Verifier.{AuthError, refused, AuthGrant, is_refused}

-- What Server.Authorize returns: an error, no grant for a session that is not checked, or a grant.
abbrev pub Reply : Type 0
Reply = Result AuthError (Option AuthGrant)

pub data Outcome : Type 0 where
  unchecked admitted refused_outcome error busy : Outcome

unfoldable pub auth_outcome : Reply → Outcome
auth_outcome (ok none) = unchecked
auth_outcome (ok (some g)) = admitted
auth_outcome (err e) = if is_refused {A = Option AuthGrant} (err e) then refused_outcome else error

-- `limit` is Server.MaxPendingAnonymous, which is at most 0 when it is not set: 0 stands for that.
abbrev pub default_pending : ℕ
default_pending = 1_024

abbrev pub max_pending : ℕ → ℕ
max_pending limit = if limit == 0 then default_pending else limit

-- The two halves of reservePending: whether the count stays within the limit, and what undoes it.
unfoldable pub try_pending : ℕ → ℕ → Bool × ℕ
try_pending limit count = (not (ltb (max_pending limit) (count + 1)), count + 1)

unfoldable pub undo_pending : ℕ → ℕ
undo_pending count = count - 1

unfoldable pub reserve_pending : ℕ → ℕ → Bool × ℕ
unfolding try_pending undo_pending
reserve_pending limit count =
    let (fits, count') = try_pending limit count in
    if fits then (true, count') else (false, undo_pending count')

pub data AdmitError : Type 0 where
  no_authorize too_many_pending : AdmitError
  auth_error : AuthError → AdmitError

abbrev pub of_reply : Reply → Result AdmitError (Option AuthGrant)
of_reply (ok g) = ok g
of_reply (err e) = err (auth_error e)

abbrev pub is_anonymous : Reply → Bool
is_anonymous (ok (some g)) = g.anonymous
is_anonymous (ok none) = false
is_anonymous (err e) = false

-- `authorize` is Server.Authorize's reply to the request, or none where it is nil. With the result come
-- the outcome that is counted and the server's count of pending sessions.
unfoldable pub admit : Option Reply → ℕ → ℕ → Result AdmitError (Option AuthGrant) × Outcome × ℕ
unfolding auth_outcome reserve_pending
admit none limit count = (err no_authorize, error, count)
admit (some reply) limit count =
    if is_anonymous reply
    then (let (fits, count') = reserve_pending limit count in
        if fits
        then (of_reply reply, auth_outcome reply, count')
        else (err too_many_pending, busy, count'))
    else (of_reply reply, auth_outcome reply, count)

pub data Refusal : Type 0 where
  refusal_refused refusal_unavailable : Refusal

unfoldable pub refusal_reason : AdmitError → Refusal
refusal_reason no_authorize = refusal_unavailable
refusal_reason too_many_pending = refusal_unavailable
refusal_reason (auth_error e) =
    if is_refused {A = Option AuthGrant} (err e) then refusal_refused else refusal_unavailable

-- moqt.Grant's fields of the token's grant; the capacity of the clones is not modelled.
unfoldable pub moq_grant : Grant → Grant
moq_grant tg =
    if is_empty tg.publishes && is_empty tg.subscribes
    then empty_grant
    else record empty_grant { root = tg.root; publishes = tg.publishes; subscribes = tg.subscribes }

unfoldable pub grants_something : Grant → Bool
grants_something g = not (is_empty g.publishes) || not (is_empty g.subscribes)

unfoldable pub lapses_at : AuthGrant → Time
lapses_at g = if g.expires == 0 then 0 else g.expires + leeway
