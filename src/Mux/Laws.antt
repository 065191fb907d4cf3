-- ===== src/Mux/Laws.antt =====
-- Which answer the mux gives to a request.
use simple_registry.Base.{
  true, false, Option-cases, Bool-cases, Option, none, some, sym, ◌==◌, list_beq, ==_refl, subst,
  ◌∙◌, sort_texts, In-sort_texts_iff, IsSorted, sort_texts-IsSorted, Bool, List, [], ◌∷◌, ◌++◌,
  nat_eq, list_eq, Text, codes, ◌≡◌, ◌≢◌, refl, ◌↔◌, ◌⊎◌, inl, inr, In, All, ap, ==-cases,
}
use simple_registry.MapSet.{add_one, join_comma}
use simple_registry.MapSet.Laws.{In-add_one_iff}
use simple_registry.Mux.{
  Route, Verdict, other_url, other_method, matched, Outcome, run, note_method, route_handler,
  verdict_at, is_head_for_get, not_found, method_not_allowed, refuse, dispatch, serve,
}

pub Verdict-cases :
    {P : Type 0} (v : Verdict P)
    → (v ≡ other_url) ⊎ ((v ≡ other_method) ⊎ ((h : Bool) × (p : P) × (v ≡ matched h p)))
Verdict-cases other_url = inl refl
Verdict-cases other_method = inr (inl refl)
Verdict-cases (matched h p) = inr (inr (h, p, refl))

In-note_method_iff :
    (x m : Text) (l : List Text)
    → In x (note_method m l) ↔ (In x l ⊎ ((x ≡ m) ⊎ ((m ≡ codes "GET") × (x ≡ codes "HEAD"))))
unfolding note_method
In-note_method_iff x m l = elim (==-cases m (codes "GET")) [
  | inl (t, q) ↦ rw t (
    λ i. elim ((In-add_one_iff x (codes "HEAD") (add_one m l)).0 i) [
      | inl j ↦ elim ((In-add_one_iff x m l).0 j) [ inl k ↦ inl k | inr e ↦ inr (inl e) ]
      | inr e ↦ inr (inr (q, e))
    ],
    elim [
      | inl k ↦
          (In-add_one_iff x (codes "HEAD") (add_one m l)).1 (inl ((In-add_one_iff x m l).1 (inl k)))
      | inr (inl e) ↦
          (In-add_one_iff x (codes "HEAD") (add_one m l)).1 (inl ((In-add_one_iff x m l).1 (inr e)))
      | inr (inr (g, e)) ↦ (In-add_one_iff x (codes "HEAD") (add_one m l)).1 (inr e)
    ],
  )
  | inr (f, ne) ↦ rw f (
    λ i. elim ((In-add_one_iff x m l).0 i) [ inl k ↦ inl k | inr e ↦ inr (inl e) ],
    elim [
      | inl k ↦ (In-add_one_iff x m l).1 (inl k)
      | inr (inl e) ↦ (In-add_one_iff x m l).1 (inr e)
      | inr (inr (g, e)) ↦ absurd (ne g)
    ],
  )
]

-- The route answers the request: its pattern fits the path, and its method is the one asked for, or
-- GET for a HEAD, which is answered without a body.
abbrev pub Answers : {P H : Type 0} → Text → Text → Route P H → Bool → P → Type 0
Answers method path r head params =
    (r.pattern path ≡ some params)
    × (((head ≡ true) × (method ≡ codes "HEAD") × (r.method ≡ codes "GET"))
        ⊎ ((head ≡ false) × (method ≡ r.method)))

verdict_at-Answers :
    {P H : Type 0} (method path : Text) (r : Route P H) (o : Option P) (head : Bool) (params : P)
    → r.pattern path ≡ o
    → verdict_at method r.method o ≡ matched head params
    → Answers method path r head params
verdict_at-Answers method path r none head params e h = absurd cc
verdict_at-Answers method path r (some q) head params e h = elim (==-cases method (codes "HEAD")) [
  | inl (t, is_head) ↦ elim (==-cases r.method (codes "GET")) [
    | inl (u, is_get) ↦
        let m : matched true q ≡ matched head params = rw (t, u) at h in
        let x : true ≡ head = cc in
        let y : q ≡ params = cc in (e ∙ ap some y, inl (sym x, is_head, is_get))
    | inr (u, _) ↦ elim (==-cases method r.method) [
      | inl (v, same) ↦
          let m : matched false q ≡ matched head params = rw (t, u, v) at h in
          let x : false ≡ head = cc in let y : q ≡ params = cc in (e ∙ ap some y, inr (sym x, same))
      | inr (v, _) ↦ absurd (cc (rw (t, u, v) at h))
    ]
  ]
  | inr (t, _) ↦ elim (==-cases method r.method) [
    | inl (v, same) ↦
        let m : matched false q ≡ matched head params = rw (t, v) at h in
        let x : false ≡ head = cc in let y : q ≡ params = cc in (e ∙ ap some y, inr (sym x, same))
    | inr (v, _) ↦ absurd (cc (rw (t, v) at h))
  ]
]

head_for_get : is_head_for_get (codes "HEAD") (codes "GET") ≡ true
unfolding list_beq
head_for_get = refl

no_head_for_head : is_head_for_get (codes "HEAD") (codes "HEAD") ≡ false
unfolding list_beq
no_head_for_head = refl

get_is_no_head : (method : Text) → is_head_for_get method method ≡ false
get_is_no_head method = elim (==-cases method (codes "HEAD")) [
  | inr (t, _) ↦ rw t refl
  | inl (t, e) ↦ rw (e, no_head_for_head) refl
]

Answers-verdict :
    {P H : Type 0} (method path : Text) (r : Route P H) (head : Bool) (params : P)
    → Answers method path r head params
    → route_handler r method path ≡ matched head params
unfolding route_handler
Answers-verdict method path r head params (fits, inl (h, m, g)) =
    rw (fits, m, g, head_for_get, h) refl
Answers-verdict method path r head params (fits, inr (h, m)) =
    rw (fits, m, get_is_no_head r.method, ==_refl r.method, h) refl

ne_other_url :
    {P : Type 0} (method other : Text) (params : P)
    → ¬ (verdict_at method other (some params) ≡ other_url)
ne_other_url method other params h = elim (Bool-cases (is_head_for_get method other)) [
  | inl t ↦ cc (rw t at h)
  | inr f ↦ elim (Bool-cases (method == other)) [
    | inl t ↦ cc (rw (f, t) at h)
    | inr g ↦ cc (rw (f, g) at h)
  ]
]

module _ {P H : Type 0} (method path : Text) where
  -- The handler of the route passes the request on.
  abbrev Unmatched : Route P H → Type 0
  Unmatched r = (h : Bool) (p : P) → route_handler r method path ≢ matched h p

  -- The first route whose handler takes the request, with those before it.
  abbrev SelectsBy : List (Route P H) → Bool → P → H → Type 0
  SelectsBy routes head params next =
      (before : List (Route P H)) × (after : List (Route P H)) × (r : Route P H) × (routes
        ≡ before ++ r ∷ after)
      × All Unmatched before
      × (route_handler r method path ≡ matched head params)
      × (r.next ≡ next)

  refuse-ne_run :
      (l : List Text) (head : Bool) (params : P) (next : H)
      → refuse {P = P} {H = H} l ≢ run head params next
  unfolding refuse
  refuse-ne_run [] head params next h = cc
  refuse-ne_run (m ∷ l) head params next h = cc

  dispatch-SelectsBy :
      (routes : List (Route P H)) (allowed : List Text) (head : Bool) (params : P) (next : H)
      → dispatch routes allowed method path ≡ run head params next
      → SelectsBy routes head params next
  unfolding dispatch
  dispatch-SelectsBy [] allowed head params next h =
      absurd (refuse-ne_run allowed head params next h)
  dispatch-SelectsBy (r ∷ routes) allowed head params next h =
      elim (Verdict-cases (route_handler r method path)) [
        | inl u ↦
            let (bef, aft, q, e, out, m, n) =
              dispatch-SelectsBy routes allowed head params next (rw (u, dispatch) at h) in
            (r ∷ bef, aft, q, ap (λ l. r ∷ l) e, ((λ x y z. cc), out), m, n)
        | inr (inl u) ↦
            let (bef, aft, q, e, out, m, n) =
              dispatch-SelectsBy routes (note_method r.method allowed) head params next
                (rw (u, dispatch) at h) in
            (r ∷ bef, aft, q, ap (λ l. r ∷ l) e, ((λ x y z. cc), out), m, n)
        | inr (inr (x, y, u)) ↦
            let z : ◌≡◌ {A = Outcome P H} (run x y r.next) (run head params next) =
              rw (u, dispatch) at h in
            let p : x ≡ head = cc in
            let q : y ≡ params = cc in
            let n : r.next ≡ next = cc in ([], routes, r, refl, tt, rw (u, p, q) refl, n)
      ]

  dispatch-run :
      (before after : List (Route P H)) (r : Route P H) (allowed : List Text) (head : Bool)
      (params : P)
      → All Unmatched before
      → route_handler r method path ≡ matched head params
      → dispatch (before ++ r ∷ after) allowed method path ≡ run head params r.next
  unfolding dispatch
  dispatch-run [] after r allowed head params out m = rw (m, dispatch) refl
  dispatch-run (b ∷ before) after r allowed head params (miss, out) m =
      elim (Verdict-cases (route_handler b method path)) [
        | inl u ↦ rw (u, dispatch) (dispatch-run before after r allowed head params out m)
        | inr (inl u) ↦
            rw (u, dispatch)
              (dispatch-run before after r (note_method b.method allowed) head params out m)
        | inr (inr (x, y, u)) ↦ absurd (miss x y u)
      ]

  -- A method that is noted on the way: that of a route for this path, or HEAD beside a GET.
  abbrev Noted : Text → List (Route P H) → Type 0
  Noted x [] = ⊥
  Noted x (r ∷ routes) =
      ((route_handler r method path ≡ other_method)
        × ((x ≡ r.method) ⊎ ((r.method ≡ codes "GET") × (x ≡ codes "HEAD"))))
      ⊎ Noted x routes

  dispatch-refuse :
      (routes : List (Route P H)) (allowed : List Text)
      → All Unmatched routes
      → (l : List Text) × (dispatch routes allowed method path ≡ refuse l)
        × ((x : Text) → In x l ↔ (In x allowed ⊎ Noted x routes))
  unfolding dispatch
  dispatch-refuse [] allowed out =
      (allowed, refl, λ x. (inl, elim [ inl i ↦ i | inr z ↦ absurd z ]))
  dispatch-refuse (r ∷ routes) allowed (miss, out) =
      elim (Verdict-cases (route_handler r method path)) [
        | inl u ↦
            let (l, e, k) = dispatch-refuse routes allowed out in
            (
              l,
              rw (u, dispatch) e,
              λ x. (
                λ i. elim ((k x).0 i) [ inl j ↦ inl j | inr o ↦ inr (inr o) ],
                elim [
                  | inl j ↦ (k x).1 (inl j)
                  | inr (inl (v, _)) ↦ absurd (cc)
                  | inr (inr o) ↦ (k x).1 (inr o)
                ],
              ),
            )
        | inr (inl u) ↦
            let (l, e, k) = dispatch-refuse routes (note_method r.method allowed) out in
            (
              l,
              rw (u, dispatch) e,
              λ x. (
                λ i. elim ((k x).0 i) [
                  | inl j ↦ elim ((In-note_method_iff x r.method allowed).0 j) [
                    | inl a ↦ inl a
                    | inr b ↦ inr (inl (u, b))
                  ]
                  | inr o ↦ inr (inr o)
                ],
                elim [
                  | inl j ↦ (k x).1 (inl ((In-note_method_iff x r.method allowed).1 (inl j)))
                  | inr (inl (v, b)) ↦
                      (k x).1 (inl ((In-note_method_iff x r.method allowed).1 (inr b)))
                  | inr (inr o) ↦ (k x).1 (inr o)
                ],
              ),
            )
        | inr (inr (h, p, u)) ↦ absurd (miss h p u)
      ]

  -- The route does not answer the request.
  abbrev pub Misses : Route P H → Type 0
  Misses r = (head : Bool) (params : P) → ¬ Answers method path r head params

  -- The first route that answers the request, with those before it.
  abbrev pub Selects : List (Route P H) → Bool → P → H → Type 0
  Selects routes head params next =
      (before : List (Route P H)) × (after : List (Route P H)) × (r : Route P H) × (routes
        ≡ before ++ r ∷ after)
      × All Misses before
      × Answers method path r head params
      × (r.next ≡ next)

  Answers-matched :
      (r : Route P H) (head : Bool) (params : P)
      → route_handler r method path ≡ matched head params
      → Answers method path r head params
  unfolding route_handler
  Answers-matched r head params h =
      verdict_at-Answers method path r (r.pattern path) head params refl h

  Misses-Unmatched : (l : List (Route P H)) → All Misses l → All Unmatched l
  Misses-Unmatched [] out = tt
  Misses-Unmatched (r ∷ l) (miss, out) =
      (λ h p e. miss h p (Answers-matched r h p e), Misses-Unmatched l out)

  Unmatched-Misses : (l : List (Route P H)) → All Unmatched l → All Misses l
  Unmatched-Misses [] out = tt
  Unmatched-Misses (r ∷ l) (miss, out) =
      (λ h p e. miss h p (Answers-verdict method path r h p e), Unmatched-Misses l out)

  -- The mux runs a handler exactly when it is that of the first route in the table whose pattern
  -- fits the path and whose method is the one asked for, or GET for a HEAD, and it runs it with the
  -- parameters of that match, without a body for a HEAD.
  pub serve-run_iff :
      (routes : List (Route P H)) (head : Bool) (params : P) (next : H)
      → (serve routes method path ≡ run head params next) ↔ Selects routes head params next
  unfolding serve
  serve-run_iff routes head params next = (
    λ h.
        let (bef, aft, r, e, out, m, n) = dispatch-SelectsBy routes [] head params next h in
        (bef, aft, r, e, Unmatched-Misses bef out, Answers-matched r head params m, n),
    λ (bef, aft, r, e, out, m, n).
        rw
          (
            e,
            dispatch-run bef aft r [] head params (Misses-Unmatched bef out)
                (Answers-verdict method path r head params m),
          )
          (ap (run head params) n),
  )

  -- A method that the header `Allow` names: that of a route for this path, or HEAD beside a GET.
  abbrev pub Offered : Text → List (Route P H) → Type 0
  Offered x [] = ⊥
  Offered x (r ∷ routes) =
      (((params : P) × (r.pattern path ≡ some params))
        × ((x ≡ r.method) ⊎ ((r.method ≡ codes "GET") × (x ≡ codes "HEAD"))))
      ⊎ Offered x routes

  -- The answer to a request that no route answers: 404 where no route is for the path, else 405 with
  -- the methods of the routes for it, sorted.
  abbrev pub Refuses : List (Route P H) → Outcome P H → Type 0
  Refuses routes out =
      (((x : Text) → ¬ Offered x routes) × (out ≡ not_found))
      ⊎ ((x : Text) × Offered x routes
          × (l : List Text) × IsSorted l
          × ((y : Text) → In y l ↔ Offered y routes)
          × (out ≡ method_not_allowed (join_comma l)))

  fits_of_noted :
      (r : Route P H)
      → route_handler r method path ≡ other_method
      → (params : P) × (r.pattern path ≡ some params)
  unfolding route_handler
  fits_of_noted r v = elim (Option-cases (r.pattern path)) [
    | inl n ↦ absurd (cc (rw n at v))
    | inr f ↦ f
  ]

  noted_of_fits :
      (r : Route P H) (params : P)
      → Unmatched r
      → r.pattern path ≡ some params
      → route_handler r method path ≡ other_method
  unfolding route_handler
  noted_of_fits r params miss f = elim (Verdict-cases (route_handler r method path)) [
    | inl u ↦ absurd (ne_other_url method r.method params (rw f at u))
    | inr (inl v) ↦ v
    | inr (inr (h, p, v)) ↦ absurd (miss h p v)
  ]

  Noted-Offered_iff :
      (x : Text) (routes : List (Route P H))
      → All Unmatched routes
      → Noted x routes ↔ Offered x routes
  Noted-Offered_iff x [] out = (λ z. z, λ z. z)
  Noted-Offered_iff x (r ∷ routes) (miss, out) =
      let (to, from) = Noted-Offered_iff x routes out in
      (
        elim [ inl (v, b) ↦ inl (fits_of_noted r v, b) | inr o ↦ inr (to o) ],
        elim [ inl (f, b) ↦ inl (noted_of_fits r f.0 miss f.1, b) | inr o ↦ inr (from o) ],
      )

  refuse-Refuses :
      (routes : List (Route P H)) (l : List Text)
      → ((x : Text) → In x l ↔ Offered x routes)
      → Refuses routes (refuse l)
  unfolding refuse
  refuse-Refuses routes [] k = inl (λ x o. (k x).1 o, refl)
  refuse-Refuses routes (m ∷ l) k = inr (
    m,
    (k m).0 (inl refl),
    sort_texts (m ∷ l),
    sort_texts-IsSorted (m ∷ l),
    λ y. (
      λ i. (k y).0 ((In-sort_texts_iff y (m ∷ l)).0 i),
      λ o. (In-sort_texts_iff y (m ∷ l)).1 ((k y).1 o),
    ),
    refl,
  )

  -- A request that no route answers gets 404 where no route is for its path, and else 405 with the
  -- header `Allow` of exactly the methods of the routes for it, with HEAD beside GET, sorted.
  pub serve-Refuses :
      (routes : List (Route P H)) → All Misses routes → Refuses routes (serve routes method path)
  unfolding serve
  serve-Refuses routes out =
      let none_fits = Misses-Unmatched routes out in
      let (l, e, k) = dispatch-refuse routes [] none_fits in
      subst (Refuses routes) (sym e) (
        refuse-Refuses routes l (λ x.
          let (to, from) = Noted-Offered_iff x routes none_fits in
          (λ i. elim ((k x).0 i) [ inl z ↦ absurd z | inr o ↦ to o ], λ o. (k x).1 (inr (from o)))))
