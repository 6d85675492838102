-- ===== src/Relay/Roots/Puts.antt =====
-- internal/relay/admit.go, registerTicket: what a ticket does to the tickets of its root.
use qumo.Common.{
  ℕ, ◌≡◌, refl, true, false, not, ◌&&◌, ◌||◌, Option, none, some, List, [], ◌∷◌, ◌++◌,
  if◌then◌else◌, keep, map, All, Among, Among-keep_to, Among-keep_of, Among-append_to,
  Among-append_of, arith, inl, inr, Bool-cases, Option-cases, ap, ◌∙◌, sym, subst, append-nil, max,
}
use qumo.Relay.Roots.{
  is_funnel, is_nothing, Withdrawal, Handle, ticket_of, RootState, state_empty, replaces,
  withdrawn_ticket, begun_before, put_ticket, put_state,
}
use qumo.Relay.Roots.Invariant.{IsRoot}
use qumo.Relay.Roots.Supersede.{
  supersedes, listed, in_force, IsPut, keep-same, keep-false, empty-lists, supersedes-funnel,
  keep-none, keep_every, All-map,
}

-- A ticket that was replaced before it registered.
refused-IsPut :
    (h : Withdrawal) (st : RootState)
    → replaces st h ≡ true
    → IsPut h (in_force (some st)) (put_state h st)
unfolding put_state
refused-IsPut h st r =
    let same : put_state h st
        ≡ (if state_empty st then none else some st, ticket_of h ∷ [], false) =
      ground arith in
    subst (IsPut h (in_force (some st))) (sym same) (record {
      withdrawn = λ c. cc;
      added = λ c. cc;
      kept = λ c. cc;
      only = λ c. cc;
      refused = λ c. (
        refl,
        elim (Bool-cases (state_empty st)) [
          | inl e ↦ rw e (sym (empty-lists st.ticket st.funnel e))
          | inr e ↦ rw e refl
        ],
      );
    })

-- A ticket of funnel actions alone, which stands beside the others.
funnel-IsPut :
    (h : Withdrawal) (st : RootState)
    → replaces st h ≡ false
    → is_funnel h.role ≡ true
    → IsPut h (in_force (some st)) (put_state h st)
unfolding put_state
funnel-IsPut h st r f =
    let ts = listed st.ticket in
    let fs = st.funnel in
    let ends_none : (g : Withdrawal) → supersedes h g ≡ false = λ g.
      ap (λ b. not b && (not (is_funnel g.role) || (is_nothing h.role && begun_before h g))) f in
    let same : put_state h st ≡ (some (record st { funnel = h ∷ fs }), [], true) = ground arith in
    subst (IsPut h (ts ++ fs)) (sym same) (record {
      withdrawn = λ c. sym (ap (map ticket_of) (keep-none (supersedes h) (ts ++ fs) ends_none));
      added = λ c. Among-append_of h ts (h ∷ fs) (inr (inl refl));
      kept = λ c g a q. elim (Among-append_to g ts fs a) [
        | inl x ↦ Among-append_of g ts (h ∷ fs) (inl x)
        | inr y ↦ Among-append_of g ts (h ∷ fs) (inr (inr y))
      ];
      only = λ c g a. elim (Among-append_to g ts (h ∷ fs) a) [
        | inl x ↦ inr (Among-append_of g ts fs (inl x), ends_none g)
        | inr (inl e) ↦ inl e
        | inr (inr y) ↦ inr (Among-append_of g ts fs (inr y), ends_none g)
      ];
      refused = λ c. cc;
    })

pub listed-Among : (o : Option Withdrawal) (g : Withdrawal) → Among g (listed o) → o ≡ some g
listed-Among none g a = absurd a
listed-Among (some t) g (inl e) = ap some (sym e)
listed-Among (some t) g (inr a) = absurd a

module _ (n : ℕ) (h : Withdrawal) (st : RootState) (v : IsRoot h.root n st)
    (nf : is_funnel h.role ≡ false) where
  ends_funnel : All (λ f. supersedes h f ≡ (is_nothing h.role && begun_before h f)) st.funnel
  ends_funnel = supersedes-funnel h h.root n st.cleared st.funnel v.funnel_ok

  -- A ticket that replaces others ends every one of that kind.
  ends_ticket : (t : Withdrawal) → st.ticket ≡ some t → supersedes h t ≡ true
  ends_ticket t e = ground (arith, v.ticket_ok t e, nf)

  withdrawn-all :
      withdrawn_ticket st.ticket ++ map ticket_of (keep (supersedes h) st.funnel)
      ≡ map ticket_of (keep (supersedes h) (in_force (some st)))
  withdrawn-all = elim (Option-cases st.ticket) [
    | inl e ↦ rw e refl
    | inr (t, e) ↦ rw (e, ends_ticket t e) refl
  ]

  abbrev cleared_state : RootState
  cleared_state = record {
    ticket = some h;
    funnel = keep (λ f. not (begun_before h f)) st.funnel;
    cleared = max st.cleared h.seq;
  }

  put_ticket-in_force :
      (in_force (some (put_ticket h st).0) ≡ h ∷ keep (λ f. not (supersedes h f)) st.funnel)
      × ((put_ticket h st).1
          ≡ withdrawn_ticket st.ticket ++ map ticket_of (keep (supersedes h) st.funnel))
  unfolding put_ticket
  put_ticket-in_force = elim (Bool-cases (is_nothing h.role)) [
    | inl e ↦
        let begun : All (λ f. supersedes h f ≡ begun_before h f) st.funnel =
          All-map _ _ st.funnel (λ f q. q ∙ ap (λ b. b && begun_before h f) e) ends_funnel in
        let put : put_ticket h st ≡ (
          cleared_state,
          withdrawn_ticket st.ticket ++ map ticket_of (keep (begun_before h) st.funnel),
        ) =
          ground arith in
        (
          ap (λ (p : RootState × List Handle). in_force (some p.0)) put
              ∙ ap (λ l. h ∷ l)
                  (keep-same (λ f. not (begun_before h f)) (λ f. not (supersedes h f)) st.funnel
                    (All-map _ _ st.funnel (λ f q. ap not (sym q)) begun)),
          ap (λ (p : RootState × List Handle). p.1) put
              ∙ ap (λ l. withdrawn_ticket st.ticket ++ map ticket_of l)
                  (keep-same (begun_before h) (supersedes h) st.funnel
                    (All-map _ _ st.funnel (λ f q. sym q) begun)),
        )
    | inr e ↦
        let none_ends : All (λ f. supersedes h f ≡ false) st.funnel =
          All-map _ _ st.funnel (λ f q. q ∙ ap (λ b. b && begun_before h f) e) ends_funnel in
        let put : put_ticket h st ≡ (record st { ticket = some h }, withdrawn_ticket st.ticket) =
          ground arith in
        (
          ap (λ (p : RootState × List Handle). in_force (some p.0)) put
              ∙ ap (λ l. h ∷ l)
                  (sym (
                    keep_every (λ f. not (supersedes h f)) st.funnel
                      (All-map _ _ st.funnel (λ f q. ap not q) none_ends))),
          ap (λ (p : RootState × List Handle). p.1) put
              ∙ sym (append-nil (withdrawn_ticket st.ticket))
              ∙ ap (λ l. withdrawn_ticket st.ticket ++ map ticket_of l)
                  (sym (
                    keep-same (supersedes h) (λ f. false) st.funnel none_ends
                    ∙ keep-false st.funnel)),
        )
  ]

  ticket-IsPut : replaces st h ≡ false → IsPut h (in_force (some st)) (put_state h st)
  unfolding put_state
  ticket-IsPut r =
      let (now, out) = put_ticket-in_force in
      let fs' = keep (λ f. not (supersedes h f)) st.funnel in
      let same : put_state h st ≡ (some (put_ticket h st).0, (put_ticket h st).1, true) =
        ground arith in
      subst (IsPut h (in_force (some st))) (sym same) (record {
        withdrawn = λ c. out ∙ withdrawn-all;
        added = λ c. subst (Among h) (sym now) (inl refl);
        kept = λ c g a q.
            subst (Among g) (sym now) (elim (Among-append_to g (listed st.ticket) st.funnel a) [
              | inl x ↦ cc (ends_ticket g (listed-Among st.ticket g x))
              | inr y ↦ inr (Among-keep_of (λ f. not (supersedes h f)) g st.funnel y (ap not q))
            ]);
        only = λ c g a. elim (subst (Among g) now a) [
          | inl e ↦ inl e
          | inr y ↦
              let (x, q) = Among-keep_to (λ f. not (supersedes h f)) g st.funnel y in
              inr (Among-append_of g (listed st.ticket) st.funnel (inr x), ground arith)
        ];
        refused = λ c. cc;
      })

pub put_state-IsPut :
    (n : ℕ) (h : Withdrawal) (st : RootState)
    → IsRoot h.root n st
    → IsPut h (in_force (some st)) (put_state h st)
put_state-IsPut n h st v = elim (Bool-cases (replaces st h)) [
  | inl r ↦ refused-IsPut h st r
  | inr r ↦ elim (Bool-cases (is_funnel h.role)) [
    | inl f ↦ funnel-IsPut h st r f
    | inr f ↦ ticket-IsPut n h st v f r
  ]
]
