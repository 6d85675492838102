-- ===== src/Auth/Examples.antt =====
-- internal/auth/verifier.go: concrete decisions, and the theorems at concrete inputs.
use qumo.Common.{
  ◌+◌, ◌*◌, ◌≡◌, ◌↔◌, refl, true, false, not, ◌&&◌, some, [], ◌∷◌, codes, text_eq, ok, arith,
}
use qumo.Token.Claims.{Time, Verified, second}
use qumo.Token.Samples.{moqt, wire, trusted, noon, accepted, verify_team}
use qumo.Auth.Verifier.{
  KeyStore, Request, connect, revalidate, credential_of, first_value, publishes_broadcast, granted,
  unless_paused, decide, authorize, ticket,
}
use qumo.Auth.Decisions.{IsDecided, outcome, decide_iff, ticket-IsDecided}
use qumo.Auth.Sessions.{session_continues}

abbrev store : KeyStore
store = record { keys = some trusted; last_success = noon }

decide_iff_example :
    (decide moqt wire (ok (codes "h.c.s")) true (λ g. true) store noon ≡ ok (outcome accepted)) ↔ (
      (v : Verified) × (outcome accepted ≡ outcome v)
      × IsDecided moqt wire (ok (codes "h.c.s")) true (λ g. true) store noon v)
decide_iff_example =
    decide_iff moqt wire (ok (codes "h.c.s")) true (λ g. true) store noon (outcome accepted)

ticket_team : ticket moqt wire store noon (codes "h.c.s") (codes "k1") false ≡ ok (granted accepted)
unfolding ticket decide unless_paused text_eq
ticket_team = ground (arith, verify_team)

ticket-IsDecided_example :
    (text_eq (codes "k1") [] ≡ false)
    × (accepted.key.id ≡ codes "k1")
    × ((v : Verified) × (granted accepted ≡ granted v)
        × IsDecided moqt wire
            (ok (codes "h.c.s"))
            true
            (λ g. not false && publishes_broadcast g.grant)
            store
            noon
            v)
ticket-IsDecided_example =
    ticket-IsDecided moqt wire store noon (codes "h.c.s") (codes "k1") false (granted accepted)
      ticket_team

-- A connect with "?jwt=h.c.s", and a revalidation a day later under a key set that is as old.
abbrev connecting : Request
connecting = record {
  id = codes "s1";
  event = connect;
  query = some ((codes "jwt", codes "h.c.s") ∷ []);
  bytes = 0;
}

abbrev day : Time
day = 86_400 * second

connects : (authorize moqt wire true store noon connecting).0 ≡ ok (granted accepted)
unfolding authorize credential_of first_value decide unless_paused text_eq
connects = ground (arith, verify_team)

session_continues_example :
    (authorize moqt wire true store
      (noon + day)
      (record connecting { event = revalidate; bytes = 10 })).0
    ≡ ok (granted accepted)
session_continues_example =
    session_continues moqt wire true true store store noon (noon + day) connecting
      (record connecting { event = revalidate; bytes = 10 }) (granted accepted) trusted trusted refl
      refl refl refl refl (λ kid key e. e) (omega arith) connects
