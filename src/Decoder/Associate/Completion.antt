-- ===== src/Decoder/Associate/Completion.antt =====
-- When requests are completed: a group that is finished inside the loop, in the order of its
-- connection's sequences, and never at the stop.
use hp_http_server.Common.{
  ℕ, ◌≡◌, refl, subst, Bool, true, false, not, ◌&&◌, Option, none, some, List, [], ◌∷◌, ◌++◌, arith,
  leb, ◌==◌, Bool-cases, Option-cases, inl, inr, any, all, Outcome, ok, demand, >>=-eq-ok,
  ok-injective,
}
use hp_http_server.Timeline.Analyze.{analyze}
use hp_http_server.Decoder.Faults.{
  Fault, unclosed_scope, endpoint_without_origin, missing_origin, missing_interior_endpoints,
  client_order_invalid, server_order_invalid, body_unverified, byte_accounting_differs,
}
use hp_http_server.Decoder.Group.{Group, point_at, has_point, point_kinds, is_complete}
use hp_http_server.Decoder.Finish.{
  Setup, Link, Ending, idle, pending, complete, finish, finish_request, finish_missing,
  finish_complete, missing_of, missing_points, handler_of, first_from, lift_timeline, last_sequence,
  is_pending, is_ascending, at, is_body, is_count, document_of, select_scopes, is_prior,
}

missing_points-eq-nil :
    (points : List (ℕ × ℕ)) (kinds rest : List ℕ)
    → missing_points points kinds ++ rest ≡ []
    → (all (has_point points) kinds ≡ true) × (rest ≡ [])
unfolding missing_points
missing_points-eq-nil points [] rest h = (refl, h)
missing_points-eq-nil points (k ∷ kinds) rest h = elim (Bool-cases (has_point points k)) [
  | inl here ↦ rw here (missing_points-eq-nil points kinds rest (rw here at h))
  | inr missing ↦ cc (rw missing at h)
]

any-first_from :
    (low : ℕ) (handlers : List ℕ) (t : ℕ)
    → first_from low handlers ≡ some t
    → any (λ x. leb low x) handlers ≡ true
unfolding first_from
any-first_from low [] t h = cc
any-first_from low (x ∷ handlers) t h = ground (arith, any-first_from low handlers t)

append-eq-nil : (xs ys : List ℕ) → xs ++ ys ≡ [] → xs ≡ []
append-eq-nil [] ys h = refl
append-eq-nil (x ∷ xs) ys h = cc

has_point-missing_of :
    (g : Group) (first handler : ℕ) (reads : List ℕ)
    → g.positive_reads ≡ first ∷ reads
    → handler_of g ≡ some handler
    → missing_of g ≡ []
    → all (has_point g.points) point_kinds ≡ true
unfolding missing_of
has_point-missing_of g first handler reads r s h =
    (missing_points-eq-nil g.points point_kinds []
      (append-eq-nil (missing_points g.points point_kinds ++ []) [] (rw (r, s) at h))).0

any-handler_of :
    (g : Group) (handler drained : ℕ)
    → point_at 15 g.points ≡ some drained
    → handler_of g ≡ some handler
    → any (λ t. leb drained t) g.handlers ≡ true
unfolding handler_of
any-handler_of g handler drained there s =
    any-first_from drained g.handlers handler (rw (there, handler_of) at s)

point_at-handler_of :
    (g : Group) (handler : ℕ)
    → handler_of g ≡ some handler
    → (drained : ℕ) × (point_at 15 g.points ≡ some drained)
unfolding handler_of
point_at-handler_of g handler s = elim (Option-cases (point_at 15 g.points)) [
  | inl lost ↦ cc (rw (lost, handler_of) at s)
  | inr there ↦ there
]

-- With a first read and a handler, nothing is missing only from a complete group.
is_complete-missing_of :
    (g : Group) (first handler : ℕ) (reads : List ℕ)
    → g.positive_reads ≡ first ∷ reads
    → handler_of g ≡ some handler
    → missing_of g ≡ []
    → is_complete g ≡ true
unfolding is_complete
is_complete-missing_of g first handler reads r s h =
    let (drained, there) = point_at-handler_of g handler s in
    rw (there, r, has_point-missing_of g first handler reads r s h)
      (any-handler_of g handler drained there s)

-- What `finish` completes carries the key of the group, which has all that a request needs.
abbrev pub Completes : ℕ → ℕ → Group → Ending → Type 0
Completes index sequence g idle = Unit {0}
Completes index sequence g (pending p) = Unit {0}
Completes index sequence g (complete r) =
    (r.connection_index ≡ index) × (r.request_sequence ≡ sequence) × (is_complete g ≡ true)

module _ (setup : Setup) (index : ℕ) (link : Link) (sequence : ℕ) (g : Group) where
  finish_missing-Completes :
      (at_stop : Bool) (missing : List ℕ) (ending : Ending)
      → finish_missing setup index link sequence g at_stop missing ≡ ok ending
      → Completes index sequence g ending
  unfolding finish_missing
  finish_missing-Completes at_stop missing ending h =
      let (_, _, e) =
        >>=-eq-ok
          (demand
            (at_stop
              && sequence == last_sequence link.reserved
              && is_pending link.reserved
              && leb setup.measurement_end_ns link.client_stopped_ns)
            missing_interior_endpoints)
          _ h in
      subst (Completes index sequence g) (ok-injective e) tt

  finish_complete-Completes :
      (first handler : ℕ) (ending : Ending)
      → is_complete g ≡ true
      → finish_complete setup index link sequence g first handler ≡ ok ending
      → Completes index sequence g ending
  unfolding finish_complete
  finish_complete-Completes first handler ending whole h =
      let (_, _, h1) =
        >>=-eq-ok
          (demand (is_ascending (at 1 g ∷ at 2 g ∷ at 3 g ∷ at 4 g ∷ [])) client_order_invalid) _
          h in
      let (_, _, h2) =
        >>=-eq-ok
          (demand (is_ascending (first ∷ at 8 g ∷ at 9 g ∷ at 10 g ∷ at 15 g ∷ handler ∷ []))
            server_order_invalid)
          _ h1 in
      let (_, _, h3) = >>=-eq-ok (demand (is_body g.body) body_unverified) _ h2 in
      let (_, _, h4) =
        >>=-eq-ok (demand (is_count g.sent_bytes g.enqueue_bytes) byte_accounting_differs) _ h3 in
      let (_, _, e) =
        >>=-eq-ok
          (lift_timeline (
            analyze (
              document_of setup index link sequence g first handler
                (select_scopes (λ x. not (is_prior first x)) g.intervals))))
          _ h4 in
      subst (Completes index sequence g) (ok-injective e) (refl, refl, whole)

  finish_request-Completes :
      (at_stop : Bool) (reads : List ℕ) (found : Option ℕ) (ending : Ending)
      → g.positive_reads ≡ reads
      → handler_of g ≡ found
      → finish_request setup index link sequence g at_stop reads found ≡ ok ending
      → Completes index sequence g ending
  unfolding finish_request
  finish_request-Completes at_stop (first ∷ reads) (some handler) ending r s h =
      go (missing_of g) refl h
    where
      go :
          (missing : List ℕ)
          → missing_of g ≡ missing
          → ◌≡◌ {A = Outcome Fault Ending}
              (elim missing [
                | [] ↦ finish_complete setup index link sequence g first handler
                | k ∷ rest ↦ finish_missing setup index link sequence g at_stop (k ∷ rest)
              ])
              (ok ending)
          → Completes index sequence g ending
      go [] m e =
          finish_complete-Completes first handler ending
            (is_complete-missing_of g first handler reads r s m) e
      go (k ∷ rest) m e = finish_missing-Completes at_stop (k ∷ rest) ending e
  finish_request-Completes at_stop [] found ending r s h =
      finish_missing-Completes at_stop _ ending h
  finish_request-Completes at_stop (first ∷ reads) none ending r s h =
      finish_missing-Completes at_stop _ ending h

  -- A request is reported only of a complete group, under the key of the group.
  pub finish-Completes :
      (at_stop : Bool) (ending : Ending)
      → finish setup index link sequence g at_stop ≡ ok ending
      → Completes index sequence g ending
  unfolding finish
  finish-Completes at_stop ending h =
      let (_, _, h1) =
        >>=-eq-ok (demand (elim g.open_calls [ [] ↦ true | c ∷ calls ↦ false ]) unclosed_scope) _
          h in
      elim (Bool-cases
        (not (has_point g.points 1) && elim g.positive_reads [ [] ↦ true | t ∷ reads ↦ false ])) [
          | inl quiet ↦
              let (_, _, e) =
                >>=-eq-ok
                  (demand (not (any (has_point g.points) (2 ∷ 3 ∷ 4 ∷ 8 ∷ 9 ∷ 10 ∷ 15 ∷ [])))
                    endpoint_without_origin)
                  _ (rw quiet at h1) in
              subst (Completes index sequence g) (ok-injective e) tt
          | inr active ↦
              let (_, _, e) =
                >>=-eq-ok (demand (has_point g.points 1) missing_origin) _ (rw active at h1) in
              finish_request-Completes at_stop g.positive_reads (handler_of g) ending refl refl e
        ]
