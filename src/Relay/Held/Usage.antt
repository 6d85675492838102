-- ===== src/Relay/Held/Usage.antt =====
-- internal/relay/admit.go, heldGrants: the key of an anonymous session, and what usage is told of it.
use qumo.Common.{
  ℕ, suc, ◌+◌, ◌-◌, ◌≡◌, refl, Bool, false, not, ◌&&◌, some, List, [], ◌∷◌, ◌++◌, ◌==◌, Text,
  text_eq, text_eq_iff, text_eq_self, arith, All, All-append_to, All-append_of, inl, inr,
  Bool-cases, length, length-append, subst, sym, ◌∙◌, ap,
}
use qumo.Relay.Held.{
  UsageCall, HeldGrants, Counted, no_grants, begin_ticket, settle_refused, usage_calls,
  settle_granted, count_pending, release_pending_locked, holding, arm_locked, released, watch, fire,
  unwatch,
}
use qumo.Relay.Held.Steps.{
  Granted, HeldSystem, admitted, HeldStep, begins, refuses, grants_one, holds_one, releases_one,
  watches, fires, ends, HeldReach, held_start, held_step,
}
use qumo.Relay.Held.Bound.{
  any_publishes, usage_of, any_granted, IsBound, SameBinding, SameBinding-IsBound, length_zero,
  not_granted, opened_publishes, usage_calls-next,
}

module _ (h : HeldGrants) (flying : List Text) (granted : List Granted) (calls : List UsageCall)
    (v : IsBound h flying granted calls) where
  begin-IsBound :
      (kid : Text) (k : HeldGrants)
      → text_eq kid [] ≡ false
      → begin_ticket kid h ≡ some k
      → IsBound k (kid ∷ flying) granted calls
  unfolding begin_ticket
  begin-IsBound kid k n e = elim (Bool-cases (text_eq h.key [])) [
    | inl o ↦
        subst (λ x. IsBound x (kid ∷ flying) granted calls)
          (let q : record h { key = kid; in_flight = h.in_flight + 1 } ≡ k = ground arith in q)
          (record {
            one_key = (refl, ground (arith, v.unbound o));
            all_of_key = ground (arith, v.unbound o);
            counted = ground (arith, v.counted);
            opened_is = v.opened_is;
            publishes_is = v.publishes_is;
            calls_are = v.calls_are;
            unbound = ground arith;
            freed = λ f g. cc;
          })
    | inr o ↦
        let same : h.key ≡ kid = ground (arith, text_eq_iff h.key kid) in
        subst (λ x. IsBound x (kid ∷ flying) granted calls)
          (let q : record h { in_flight = h.in_flight + 1 } ≡ k = ground arith in q)
          (record {
            one_key = (sym same, v.one_key);
            all_of_key = v.all_of_key;
            counted = ground (arith, v.counted);
            opened_is = v.opened_is;
            publishes_is = v.publishes_is;
            calls_are = v.calls_are;
            unbound = ground arith;
            freed = λ f g. cc;
          })
  ]

  module _ (kid : Text) (xs ys : List Text) (split : flying ≡ xs ++ kid ∷ ys) where
    rest_key : (kid ≡ h.key) × All (λ k. k ≡ h.key) (xs ++ ys)
    rest_key =
        let P : Text → Type 0 = λ k. k ≡ h.key in
        let (a, b) = All-append_to P xs (kid ∷ ys) (subst (All P) split v.one_key) in
        (b.0, All-append_of P xs ys a b.1)

    rest_length : h.in_flight ≡ suc (length (xs ++ ys))
    rest_length =
        ground (arith, v.counted, ap length split, length-append xs (kid ∷ ys), length-append xs ys)

    -- The key of a ticket that is in flight is there.
    still_bound : text_eq h.key [] ≡ false
    still_bound = elim (Bool-cases (text_eq h.key [])) [
      | inr e ↦ e
      | inl e ↦ ground (arith, v.counted, rest_length, ap length (v.unbound e).0)
    ]

    refuse-IsBound : IsBound (settle_refused h) (xs ++ ys) granted calls
    unfolding settle_refused
    refuse-IsBound = elim (Bool-cases (not h.opened && h.in_flight - 1 == 0)) [
      | inl e ↦
          let none_left : xs ++ ys ≡ [] = length_zero (xs ++ ys) (ground (arith, rest_length)) in
          let none_granted : granted ≡ [] = not_granted granted (ground (arith, v.opened_is)) in
          record {
            one_key = subst (All _) (sym none_left) tt;
            all_of_key = subst (All _) (sym none_granted) tt;
            counted = ground (arith, rest_length);
            opened_is = v.opened_is;
            publishes_is = v.publishes_is;
            calls_are = v.calls_are;
            unbound = λ q. (none_left, none_granted);
            freed = λ f g.
                (let cleared : (settle_refused h).key ≡ [] = ground arith in
                  ap (λ x. text_eq x []) cleared ∙ text_eq_self []);
          }
      | inr e ↦
          let kept : (settle_refused h).key ≡ h.key = ground arith in
          record {
            one_key = subst (λ x. All (λ k. k ≡ x) (xs ++ ys)) (sym kept) rest_key.1;
            all_of_key =
                subst (λ x. All (λ (g : Granted). g.kid ≡ x) granted) (sym kept) v.all_of_key;
            counted = ground (arith, rest_length);
            opened_is = v.opened_is;
            publishes_is = v.publishes_is;
            calls_are = v.calls_are;
            unbound = ground (arith, still_bound);
            freed = λ f g. ground (arith, v.opened_is, rest_length, ap length f, ap any_granted g);
          }
    ]

    calls_next :
        (publishes : Bool)
        → usage_of granted ++ usage_calls publishes h
          ≡ usage_of (record { kid = kid; publishes = publishes } ∷ granted)
    calls_next publishes = usage_calls-next kid publishes h granted v.opened_is v.publishes_is

    grant-IsBound :
        (publishes : Bool)
        → IsBound
            (settle_granted publishes h)
            (xs ++ ys)
            (record { kid = kid; publishes = publishes } ∷ granted)
            (calls ++ usage_calls publishes h)
    unfolding settle_granted any_publishes
    grant-IsBound publishes = record {
      one_key = rest_key.1;
      all_of_key = (rest_key.0, v.all_of_key);
      counted = ground (arith, rest_length);
      opened_is = refl;
      publishes_is =
          opened_publishes granted publishes h.opened h.publishes v.opened_is v.publishes_is;
      calls_are = ap (λ l. l ++ usage_calls publishes h) v.calls_are ∙ calls_next publishes;
      unbound = ground (arith, still_bound);
      freed = λ f g. cc;
    }

module _ (c : Counted) where
  holding-Same : SameBinding c.held (holding c).held
  unfolding holding release_pending_locked
  holding-Same = ground arith

  unwatch-Same : SameBinding c.held (unwatch c).held
  unfolding unwatch release_pending_locked
  unwatch-Same = ground arith

module _ (h : HeldGrants) where
  released-Same : SameBinding h (released h)
  unfolding released arm_locked
  released-Same = ground arith

  watch-Same : (wait : ℕ) → SameBinding h (watch wait h)
  unfolding watch arm_locked
  watch-Same wait = ground arith

  fire-Same : (t : ℕ) → SameBinding h (fire t h).0
  unfolding fire
  fire-Same t = ground arith

HeldStep-IsBound :
    {s t : HeldSystem}
    → HeldStep s t
    → IsBound s.grants.held s.flying s.granted s.calls
    → IsBound t.grants.held t.flying t.granted t.calls
HeldStep-IsBound {s} (begins kid k n e) v = begin-IsBound _ _ _ _ v kid k n e
HeldStep-IsBound {s} (refuses kid xs ys e) v = refuse-IsBound _ _ _ _ v kid xs ys e
HeldStep-IsBound {s} (grants_one kid p xs ys e) v = grant-IsBound _ _ _ _ v kid xs ys e p
HeldStep-IsBound {s} holds_one v = SameBinding-IsBound _ _ _ _ _ (holding-Same s.grants) v
HeldStep-IsBound {s} (releases_one some_hold) v =
    SameBinding-IsBound _ _ _ _ _ (released-Same s.grants.held) v
HeldStep-IsBound {s} (watches wait) v =
    SameBinding-IsBound _ _ _ _ _ (watch-Same s.grants.held wait) v
HeldStep-IsBound {s} (fires t lt) v = SameBinding-IsBound _ _ _ _ _ (fire-Same s.grants.held t) v
HeldStep-IsBound {s} ends v = SameBinding-IsBound _ _ _ _ _ (unwatch-Same s.grants) v

admitted-IsBound : (others : ℕ) → IsBound (admitted others).grants.held [] [] []
unfolding no_grants count_pending any_publishes text_eq
admitted-IsBound others = record {
  one_key = tt;
  all_of_key = tt;
  counted = refl;
  opened_is = refl;
  publishes_is = refl;
  calls_are = refl;
  unbound = λ e. (refl, refl);
  freed = λ f g. refl;
}

-- In whatever order an anonymous session's tickets are begun, refused and granted, those in flight and
-- all that were ever granted are of the session's key, and it has one exactly while there are such
-- tickets; and usage was told of the first granted ticket, with whether it publishes, and that the
-- session publishes once, after that, if only a later one does.
pub HeldReach-IsBound :
    (others : ℕ) {s : HeldSystem}
    → HeldReach (admitted others) s
    → IsBound s.grants.held s.flying s.granted s.calls
HeldReach-IsBound others held_start = admitted-IsBound others
HeldReach-IsBound others (held_step r st) = HeldStep-IsBound st (HeldReach-IsBound others r)
