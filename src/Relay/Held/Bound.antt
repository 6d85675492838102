-- ===== src/Relay/Held/Bound.antt =====
-- internal/relay/admit.go, heldGrants: what holds of the key of an anonymous session and of its usage.
use qumo.Common.{
  ◌≡◌, refl, Bool, true, false, not, ◌&&◌, ◌||◌, List, [], ◌∷◌, ◌++◌, if◌then◌else◌, Text, text_eq,
  arith, All, length, subst, sym, ◌∙◌, ap,
}
use qumo.Relay.Held.{UsageCall, opened_usage, publishing_usage, HeldGrants, usage_calls}
use qumo.Relay.Held.Steps.{Granted}

-- Whether one of the tickets publishes.
unfoldable pub any_publishes : List Granted → Bool
any_publishes [] = false
any_publishes (g ∷ gs) = g.publishes || any_publishes gs

-- Whether the ticket that was granted first publishes; the list has the last one first.
unfoldable pub first_publishes : List Granted → Bool
first_publishes [] = false
first_publishes (g ∷ []) = g.publishes
first_publishes (g ∷ (g' ∷ gs)) = first_publishes (g' ∷ gs)

-- What usage has to be told of a session that was granted these tickets.
abbrev pub usage_of : List Granted → List UsageCall
usage_of [] = []
usage_of (g ∷ gs) =
    opened_usage (first_publishes (g ∷ gs))
    ∷ (if any_publishes (g ∷ gs) && not (first_publishes (g ∷ gs))
        then publishing_usage ∷ []
        else [])

abbrev pub any_granted : List Granted → Bool
any_granted [] = false
any_granted (g ∷ gs) = true

-- What holds of a session's key and usage between two calls.
pub record IsBound (h : HeldGrants) (flying : List Text) (granted : List Granted)
    (calls : List UsageCall) : Type 0 where
  pub one_key : All (λ k. k ≡ h.key) flying
  pub all_of_key : All (λ (g : Granted). g.kid ≡ h.key) granted
  pub counted : h.in_flight ≡ length flying
  pub opened_is : h.opened ≡ any_granted granted
  pub publishes_is : h.publishes ≡ any_publishes granted
  pub calls_are : calls ≡ usage_of granted
  pub unbound : text_eq h.key [] ≡ true → (flying ≡ []) × (granted ≡ [])
  pub freed : flying ≡ [] → granted ≡ [] → text_eq h.key [] ≡ true

-- A change of the fields that say nothing of the key or of usage.
pub record SameBinding (h k : HeldGrants) : Type 0 where
  pub key_is : k.key ≡ h.key
  pub opened_is : k.opened ≡ h.opened
  pub publishes_is : k.publishes ≡ h.publishes
  pub in_flight_is : k.in_flight ≡ h.in_flight

pub SameBinding-IsBound :
    (h k : HeldGrants) (flying : List Text) (granted : List Granted) (calls : List UsageCall)
    → SameBinding h k
    → IsBound h flying granted calls
    → IsBound k flying granted calls
SameBinding-IsBound h k flying granted calls b v = record {
  one_key = subst (λ x. All (λ y. y ≡ x) flying) (sym b.key_is) v.one_key;
  all_of_key = subst (λ x. All (λ (g : Granted). g.kid ≡ x) granted) (sym b.key_is) v.all_of_key;
  counted = b.in_flight_is ∙ v.counted;
  opened_is = b.opened_is ∙ v.opened_is;
  publishes_is = b.publishes_is ∙ v.publishes_is;
  calls_are = v.calls_are;
  unbound = λ e. v.unbound (ap (λ x. text_eq x []) (sym b.key_is) ∙ e);
  freed = λ f g. ap (λ x. text_eq x []) b.key_is ∙ v.freed f g;
}

pub length_zero : (l : List Text) → length l ≡ 0 → l ≡ []
length_zero [] e = refl
length_zero (x ∷ l) e = ground arith

pub not_granted : (l : List Granted) → any_granted l ≡ false → l ≡ []
not_granted [] e = refl
not_granted (x ∷ l) e = cc

pub opened_publishes :
    (granted : List Granted) (publishes opened published : Bool)
    → opened ≡ any_granted granted
    → published ≡ any_publishes granted
    → (if not opened then publishes else publishes || published)
      ≡ (publishes || any_publishes granted)
unfolding any_publishes
opened_publishes [] publishes opened published o p = ground arith
opened_publishes (g ∷ gs) publishes opened published o p = ground arith

first_is-any :
    (granted : List Granted) → any_publishes granted ≡ false → first_publishes granted ≡ false
unfolding any_publishes first_publishes
first_is-any [] e = refl
first_is-any (g ∷ []) e = ground arith
first_is-any (g ∷ (g' ∷ gs)) e = first_is-any (g' ∷ gs) (ground arith)

-- Granting one more ticket tells usage what it has to be told.
pub usage_calls-next :
    (kid : Text) (publishes : Bool) (h : HeldGrants) (granted : List Granted)
    → h.opened ≡ any_granted granted
    → h.publishes ≡ any_publishes granted
    → usage_of granted ++ usage_calls publishes h
      ≡ usage_of (record { kid = kid; publishes = publishes } ∷ granted)
unfolding usage_calls any_publishes first_publishes
usage_calls-next kid publishes h [] o p = ground arith
usage_calls-next kid publishes h (g ∷ gs) o p = ground (arith, first_is-any (g ∷ gs))
