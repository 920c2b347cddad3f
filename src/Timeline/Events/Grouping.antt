-- ===== src/Timeline/Events/Grouping.antt =====
-- The groups and the sequence sets that the event loop of `analyze` fills hold the same requests,
-- namely those of the events, and the contiguity test leaves no gap.
use hp_http_server.Common.{
  ℕ, ◌≤◌, ◌≡◌, refl, ◌∙◌, sym, Bool, true, false, ◌&&◌, ◌||◌, List, [], ◌∷◌, arith, ◌==◌,
  if◌then◌else◌, any, all, Bool-cases, inl, inr,
}
use hp_http_server.Timeline.Document.{Key, key_eq, key_eq_iff}
use hp_http_server.Timeline.Events.{
  Placed, Group, add_to_group, Seen, add_value, add_sequence, Collected, collect, insert_value,
  sorted_values, is_contiguous,
}

abbrev pub is_group : Key → ℕ → Group → Bool
is_group k n g = key_eq k g.key && n == g.sequence

abbrev pub has_group : Key → ℕ → List Group → Bool
has_group k n groups = any (is_group k n) groups

abbrev pub has_value : ℕ → List ℕ → Bool
has_value n values = any (λ v. v == n) values

-- Whether the set of the connection holds the sequence.
unfoldable pub has_sequence : Key → ℕ → List Seen → Bool
has_sequence k n [] = false
has_sequence k n (s ∷ seen) = if key_eq k s.key then has_value n s.values else has_sequence k n seen

abbrev pub is_placed : Key → ℕ → Placed → Bool
is_placed k n p = key_eq k p.event.key && n == p.sequence

pub has_group-add_to_group :
    (k : Key) (n : ℕ) (p : Placed) (groups : List Group)
    → has_group k n (add_to_group p groups) ≡ (is_placed k n p || has_group k n groups)
unfolding add_to_group
has_group-add_to_group k n p [] = ground arith
has_group-add_to_group k n p (g ∷ groups) =
    ground (arith, key_eq_iff p.event.key g.key, has_group-add_to_group k n p groups)

has_value-add_value :
    (n m : ℕ) (values : List ℕ) → has_value n (add_value m values) ≡ (n == m || has_value n values)
unfolding add_value
has_value-add_value n m values = elim (Bool-cases (has_value m values)) [
  | inl old ↦ rw old (ground (arith, present old))
  | inr new ↦ rw new (ground arith)
]
  where
    present : has_value m values ≡ true → n ≡ m → has_value n values ≡ true
    present old e = rw e old

pub has_sequence-add_sequence :
    (k j : Key) (n m : ℕ) (seen : List Seen)
    → has_sequence k n (add_sequence j m seen) ≡ ((key_eq k j && n == m) || has_sequence k n seen)
unfolding has_sequence add_sequence
has_sequence-add_sequence k j n m [] = ground arith
has_sequence-add_sequence k j n m (s ∷ seen) = ground (
  arith,
  key_eq_iff j s.key,
  key_eq_iff k s.key,
  key_eq_iff k j,
  has_value-add_value n m s.values,
  has_sequence-add_sequence k j n m seen,
)

-- The two collections hold the same requests.
abbrev pub Agrees : Collected → Type 0
Agrees c = (k : Key) (n : ℕ) → has_group k n c.groups ≡ has_sequence k n c.sequences

pub collect-Agrees : (p : Placed) (c : Collected) → Agrees c → Agrees (collect p c)
unfolding collect
collect-Agrees p c h k n =
    has_group-add_to_group k n p c.groups
    ∙ rw (h k n) (sym (has_sequence-add_sequence k p.event.key n p.sequence c.sequences))

-- No two groups are of one request.
abbrev pub Distinct : List Group → Type 0
Distinct [] = Unit
Distinct (g ∷ groups) = (has_group g.key g.sequence groups ≡ false) × Distinct groups

pub add_to_group-Distinct :
    (p : Placed) (groups : List Group) → Distinct groups → Distinct (add_to_group p groups)
unfolding add_to_group
add_to_group-Distinct p [] h = (refl, tt)
add_to_group-Distinct p (g ∷ groups) h = ground (
  arith,
  add_to_group-Distinct p groups h.1,
  key_eq_iff p.event.key g.key,
  key_eq_iff g.key p.event.key,
  has_group-add_to_group g.key g.sequence p groups,
)

has_value-insert_value :
    (n m : ℕ) (values : List ℕ)
    → has_value n (insert_value m values) ≡ (m == n || has_value n values)
unfolding insert_value
has_value-insert_value n m [] = refl
has_value-insert_value n m (v ∷ values) = ground (arith, has_value-insert_value n m values)

pub has_value-sorted_values :
    (n : ℕ) (values : List ℕ) → has_value n (sorted_values values) ≡ has_value n values
unfolding sorted_values
has_value-sorted_values n [] = refl
has_value-sorted_values n (v ∷ values) =
    rw (has_value-insert_value n v (sorted_values values)) (rw (has_value-sorted_values n values))

-- A contiguous list holds every number from its head up to any of its members.
contiguous-head :
    (left : ℕ) (rest : List ℕ) (b n : ℕ)
    → is_contiguous (left ∷ rest) ≡ true
    → has_value b (left ∷ rest) ≡ true
    → (left ≤ b) × (left ≤ n → n ≤ b → has_value n (left ∷ rest) ≡ true)
unfolding is_contiguous
contiguous-head left [] b n c h = (ground arith, λ low high. ground arith)
contiguous-head left (right ∷ rest) b n c h = ground (arith, contiguous-head right rest b n)

pub contiguous-between :
    (values : List ℕ) (a b n : ℕ)
    → is_contiguous values ≡ true
    → has_value a values ≡ true
    → has_value b values ≡ true
    → a ≤ n
    → n ≤ b
    → has_value n values ≡ true
contiguous-between [] a b n c ha hb low high = ha
contiguous-between (left ∷ rest) a b n c ha hb low high =
    ground (arith, contiguous-head left rest b n c hb, contiguous-head left rest a a c ha)

-- So does each set of sequences that passes the test.
pub has_sequence-between :
    (k : Key) (seen : List Seen) (a b n : ℕ)
    → all (λ (s : Seen). is_contiguous (sorted_values s.values)) seen ≡ true
    → has_sequence k a seen ≡ true
    → has_sequence k b seen ≡ true
    → a ≤ n
    → n ≤ b
    → has_sequence k n seen ≡ true
unfolding has_sequence
has_sequence-between k [] a b n c ha hb low high = ha
has_sequence-between k (s ∷ seen) a b n c ha hb low high = ground (
  arith,
  contiguous-between (sorted_values s.values) a b n,
  has_value-sorted_values a s.values,
  has_value-sorted_values b s.values,
  has_value-sorted_values n s.values,
  has_sequence-between k seen a b n,
)
