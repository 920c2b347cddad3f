-- ===== src/Format/Names/Sorted.antt =====
-- `sorted_set` gives each name once, in order, and `names` reads what git has written.
use hp_http_server.Common.{
  ◌≡◌, refl, ◌∙◌, ap, Bool, true, ◌||◌, List, [], ◌∷◌, All, Bool-cases, inl, inr, arith,
}
use hp_http_server.Common.Text.{
  Text, text_eq, text_lt, text_eq_iff, text_lt_trichotomy, text_lt_trans,
}
use hp_http_server.Format.Paths.{contains}
use hp_http_server.Format.Names.{insert_name, sorted_set}

-- Every name is before each later one.
abbrev pub IsAscending : List Text → Type 0
IsAscending [] = Unit {0}
IsAscending (name ∷ more) =
    All (λ (other : Text). text_lt name other ≡ true) more × IsAscending more

insert_name-All :
    (P : Text → Type 0) (name : Text) (sorted : List Text)
    → P name
    → All P sorted
    → All P (insert_name name sorted)
unfolding insert_name
insert_name-All P name [] p h = (p, tt)
insert_name-All P name (other ∷ sorted) p h = elim (Bool-cases (text_eq name other)) [
  | inl same ↦ rw same h
  | inr differs ↦ elim (Bool-cases (text_lt name other)) [
    | inl first ↦ rw (differs, first) (p, h)
    | inr later ↦ rw (differs, later) (h.0, insert_name-All P name sorted p h.1)
  ]
]

text_lt-All :
    (a b : Text) (more : List Text)
    → text_lt a b ≡ true
    → All (λ (other : Text). text_lt b other ≡ true) more
    → All (λ (other : Text). text_lt a other ≡ true) more
text_lt-All a b [] lt h = tt
text_lt-All a b (c ∷ more) lt h = (text_lt_trans a b c lt h.0, text_lt-All a b more lt h.1)

insert_name-IsAscending :
    (name : Text) (sorted : List Text) → IsAscending sorted → IsAscending (insert_name name sorted)
unfolding insert_name
insert_name-IsAscending name [] h = (tt, tt)
insert_name-IsAscending name (other ∷ sorted) h = elim (Bool-cases (text_eq name other)) [
  | inl same ↦ rw same h
  | inr differs ↦ elim (Bool-cases (text_lt name other)) [
    | inl first ↦ rw (differs, first) ((first, text_lt-All name other sorted first h.0), h)
    | inr later ↦
        rw (differs, later)
          (
            insert_name-All (λ (x : Text). text_lt other x ≡ true) name sorted
                (text_lt_trichotomy name other later differs) h.0,
            insert_name-IsAscending name sorted h.1,
          )
  ]
]

swap : (a b c : Bool) → (a || (b || c)) ≡ (b || (a || c))
swap a b c = ground arith

twice : (a b : Bool) → (a || b) ≡ (a || (a || b))
twice a b = ground arith

contains-insert_name :
    (x name : Text) (sorted : List Text)
    → contains (insert_name name sorted) x ≡ (text_eq x name || contains sorted x)
unfolding insert_name
contains-insert_name x name [] = refl
contains-insert_name x name (other ∷ sorted) = elim (Bool-cases (text_eq name other)) [
  | inl same ↦
      rw same (rw ((text_eq_iff name other).0 same) (twice (text_eq x other) (contains sorted x)))
  | inr differs ↦ elim (Bool-cases (text_lt name other)) [
    | inl first ↦ rw (differs, first) refl
    | inr later ↦
        rw (differs, later, contains-insert_name x name sorted)
          (swap (text_eq x other) (text_eq x name) (contains sorted x))
  ]
]

contains-sorted_set :
    (x : Text) (found : List Text) → contains (sorted_set found) x ≡ contains found x
unfolding sorted_set
contains-sorted_set x [] = refl
contains-sorted_set x (name ∷ found) =
    contains-insert_name x name (sorted_set found)
    ∙ ap (λ (b : Bool). text_eq x name || b) (contains-sorted_set x found)

-- For all names, `sorted_set` has exactly these names, strictly ascending in the order of code
-- points, so that none stands there twice.
pub sorted_set-IsAscending :
    (found : List Text)
    → IsAscending (sorted_set found)
      × ((x : Text) → contains (sorted_set found) x ≡ contains found x)
unfolding sorted_set
sorted_set-IsAscending [] = (tt, λ x. refl)
sorted_set-IsAscending (name ∷ found) = (
  insert_name-IsAscending name (sorted_set found) (sorted_set-IsAscending found).0,
  λ x. contains-sorted_set x (name ∷ found),
)
