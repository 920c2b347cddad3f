-- ===== src/Timeline/Events/Attribution.antt =====
-- What the event checks of `analyze` establish of each event, and of the collections they fill.
use hp_http_server.Common.{
  ◌⊎◌, inl, inr, Bool-cases, ◌≤◌, ℕ, ◌≡◌, ◌∙◌, sym, ap, Bool, true, false, ◌&&◌, ◌||◌, Option, none,
  some, List, [], ◌∷◌, ◌++◌, arith, ◌==◌, any, All, ok, demand, demand-eq-ok, >>=-eq-ok,
  ok-injective, subst,
}
use mathlib.Core.List.{append_assoc, append-nil}
use hp_http_server.Common.Int.{pos, negsuc}
use hp_http_server.Timeline.Errors.{
  Invalid, unmapped_event, invalid_request_sequence, endpoint_kind_mismatch, event_owner_mismatch,
}
use hp_http_server.Timeline.Document.{
  key_eq_iff, Owner, Endpoint, client, server, unknown_endpoint, Kind, kind_code, activity, Scalar,
  int, other, missing, Key, key_eq, owner_eq, owner_eq_sound, Connection, Event,
}
use hp_http_server.Timeline.Events.{
  Placed, Collected, collect, belongs, owner_at, find_connection, or_raise, int_from, check_event,
  check_events, check_connections,
}
use hp_http_server.Timeline.Events.Grouping.{
  Agrees, collect-Agrees, Distinct, add_to_group-Distinct, has_group, is_placed,
  has_group-add_to_group,
}

-- The connection stands in the list.
abbrev pub Listed : Connection → List Connection → Type 0
Listed c [] = ⊥
Listed c (d ∷ known) = (c ≡ d) ⊎ Listed c known

-- The owner that a connection has at an endpoint, and the kinds of event of an endpoint.
abbrev pub IsOwner : Connection → Endpoint → Owner → Type 0
IsOwner c client o = o ≡ c.client
IsOwner c server o = o ≡ c.server
IsOwner c unknown_endpoint o = ⊥

abbrev pub IsKind : Endpoint → Kind → Type 0
IsKind client k = (kind_code k ≤ 3) ⊎ (k ≡ activity)
IsKind server k = ((4 ≤ kind_code k) × (kind_code k ≤ 8)) ⊎ (k ≡ activity)
IsKind unknown_endpoint k = ⊥

-- The event has a listed connection of its key, the owner of that connection at its endpoint, a kind
-- of that endpoint, a time and a positive sequence.
pub record IsAttributed (known : List Connection) (e : Event) : Type 0 where
  pub connection : Connection
  pub listed : Listed connection known
  pub keyed : e.key ≡ connection.key
  pub owned : IsOwner connection e.endpoint e.owner
  pub kind_belongs : IsKind e.endpoint e.kind
  pub time : ℕ
  pub timed : e.time_ns ≡ some time
  pub sequence : ℕ
  pub sequenced : e.request_sequence ≡ int (pos sequence)
  pub positive : 1 ≤ sequence

find_connection-Listed :
    (k : Key) (known : List Connection) (c : Connection)
    → find_connection k known ≡ some c
    → Listed c known × (k ≡ c.key)
unfolding find_connection
find_connection-Listed k [] c h = cc
find_connection-Listed k (d ∷ known) c h = elim (Bool-cases (key_eq k d.key)) [
  | inl here ↦ (inl (ground arith), (key_eq_iff k c.key).0 (ground arith))
  | inr there ↦
      let (deeper, same) = find_connection-Listed k known c (ground arith) in (inr deeper, same)
]

belongs-IsKind : (p : Endpoint) (k : Kind) → belongs p k ≡ true → IsKind p k
unfolding belongs
belongs-IsKind client k h = ground arith
belongs-IsKind server k h = ground arith
belongs-IsKind unknown_endpoint k h = ground arith

owner_at-IsOwner :
    (c : Connection) (p : Endpoint) (k : Kind) (o : Owner)
    → belongs p k ≡ true
    → o ≡ owner_at c p
    → IsOwner c p o
unfolding belongs owner_at
owner_at-IsOwner c client k o b h = h
owner_at-IsOwner c server k o b h = h
owner_at-IsOwner c unknown_endpoint k o b h = ground arith

or_raise-eq-ok {ℓ} :
    {A : Type ℓ} (o : Option A) (e : Invalid) {a : A} → or_raise o e ≡ ok a → o ≡ some a
unfolding or_raise
or_raise-eq-ok none e h = cc
or_raise-eq-ok (some a) e h = cc

int_from-eq-some :
    (low : ℕ) (s : Scalar) (n : ℕ) → int_from low s ≡ some n → (s ≡ int (pos n)) × (low ≤ n)
unfolding int_from
int_from-eq-some low (int (pos m)) n h = ground arith
int_from-eq-some low (int (negsuc m)) n h = cc
int_from-eq-some low (other t) n h = cc
int_from-eq-some low missing n h = cc

pub record Places (known : List Connection) (e : Event) (p : Placed) : Type 0 where
  pub attributed : IsAttributed known e
  pub same_event : p.event ≡ e
  pub same_sequence : p.sequence ≡ attributed.sequence

pub check_event-Places :
    (known : List Connection) (e : Event) (p : Placed)
    → check_event known e ≡ ok p
    → Places known e p
unfolding check_event
check_event-Places known e p h =
    let (c, found, h1) = >>=-eq-ok (or_raise (find_connection e.key known) unmapped_event) _ h in
    let (t, timed, h2) = >>=-eq-ok (or_raise e.time_ns unmapped_event) _ h1 in
    let (n, numbered, h3) =
      >>=-eq-ok (or_raise (int_from 1 e.request_sequence) invalid_request_sequence) _ h2 in
    let (_, kinded, h4) =
      >>=-eq-ok (demand (belongs e.endpoint e.kind) endpoint_kind_mismatch) _ h3 in
    let (_, owned, f) =
      >>=-eq-ok (demand (owner_eq e.owner (owner_at c e.endpoint)) event_owner_mismatch) _ h4 in
    let at_key = find_connection-Listed e.key known c (or_raise-eq-ok _ _ found) in
    let belonging = demand-eq-ok _ _ kinded in
    let int_seq = int_from-eq-some 1 e.request_sequence n (or_raise-eq-ok _ _ numbered) in
    record {
      attributed = record {
        connection = c;
        listed = at_key.0;
        keyed = at_key.1;
        owned =
            owner_at-IsOwner c e.endpoint e.kind e.owner belonging
              (owner_eq_sound e.owner (owner_at c e.endpoint) (demand-eq-ok _ _ owned));
        kind_belongs = belongs-IsKind e.endpoint e.kind belonging;
        time = t;
        timed = or_raise-eq-ok _ _ timed;
        sequence = n;
        sequenced = int_seq.0;
        positive = int_seq.1;
      };
      same_event = ap (λ (x : Placed). x.event) (sym (ok-injective f));
      same_sequence = ap (λ (x : Placed). x.sequence) (sym (ok-injective f));
    }

-- Whether the event is of that request.
abbrev pub is_number : ℕ → Scalar → Bool
is_number n (int (pos m)) = n == m
is_number n _ = false

abbrev pub is_of : Key → ℕ → Event → Bool
is_of k n e = key_eq k e.key && is_number n e.request_sequence

is_placed-Places :
    (known : List Connection) (k : Key) (n : ℕ) (e : Event) (p : Placed)
    → Places known e p
    → is_placed k n p ≡ is_of k n e
is_placed-Places known k n e p h = rw (h.same_event, h.same_sequence, h.attributed.sequenced)

-- What the loop has established when it ends.
pub record Gathers (known : List Connection) (c : Collected) (events : List Event) (c' : Collected)
    : Type 0 where
  pub attributed : All (IsAttributed known) events
  pub agrees : Agrees c → Agrees c'
  pub distinct : Distinct c.groups → Distinct c'.groups
  pub requests :
      (k : Key) (n : ℕ)
      → has_group k n c'.groups ≡ (has_group k n c.groups || any (is_of k n) events)

collect_requests :
    (known : List Connection) (p : Placed) (c : Collected) (e : Event) (rest : List Event) (k : Key)
    (n : ℕ)
    → Places known e p
    → (has_group k n (collect p c).groups || any (is_of k n) rest)
      ≡ (has_group k n c.groups || any (is_of k n) (e ∷ rest))
unfolding collect
collect_requests known p c e rest k n h =
    rw (has_group-add_to_group k n p c.groups)
      (rw (is_placed-Places known k n e p h) (ground arith))

pub check_events-Gathers :
    (known : List Connection) (c : Collected) (events : List Event) (c' : Collected)
    → check_events known c events ≡ ok c'
    → Gathers known c events c'
unfolding check_events
check_events-Gathers known c [] c' h =
    subst (Gathers known c []) (ok-injective h) (record {
      attributed = tt;
      agrees = λ a. a;
      distinct = λ d. d;
      requests = λ k n. ground arith;
    })
check_events-Gathers known c (e ∷ rest) c' h =
    let (p, checked, h') = >>=-eq-ok (check_event known e) _ h in
    let placed = check_event-Places known e p checked in
    let later = check_events-Gathers known (collect p c) rest c' h' in
    record {
      attributed = (placed.attributed, later.attributed);
      agrees = λ a. later.agrees (collect-Agrees p c a);
      distinct = λ d. later.distinct (unfold collect in add_to_group-Distinct p c.groups d);
      requests = λ k n. later.requests k n ∙ collect_requests known p c e rest k n placed;
    }

-- The checks of the connections return them as they are.
pub check_connections-eq-append :
    (known rest connections : List Connection)
    → check_connections known rest ≡ ok connections
    → connections ≡ known ++ rest
unfolding check_connections
check_connections-eq-append known [] connections h = sym (ok-injective h) ∙ sym (append-nil known)
check_connections-eq-append known (c ∷ rest) connections h = ground (
  arith,
  check_connections-eq-append (known ++ c ∷ []) rest connections,
  append_assoc known (c ∷ []) rest,
)
