-- ===== src/Format/Paths/Normal.antt =====
-- The normal form of names: what `validate_path` returns is parsed into the same parts again.
use hp_http_server.Common.{
  ◌≡◌, refl, ◌∙◌, ap, subst, true, false, not, ◌||◌, List, [], ◌∷◌, filter, All, Bool-cases, inl,
  inr, arith, ok, demand, >>=-eq-ok, demand-eq-ok, ok-injective,
}
use hp_http_server.Common.Text.{
  Text, codes, starts_with, split_on, join, Lacks, split_on-join, split_on-Lacks,
}
use hp_http_server.Format.Paths.{
  invalid_path, symlink, not_a_file, contains, is_part, path_of, posix, eligible_parts, eligible,
  Tree, is_file, has_symlink, validate_path,
}

-- A part that a path can have: not empty, not a dot, and with no slash.
abbrev pub IsPart : Text → Type 0
IsPart part = (is_part part ≡ true) × Lacks b'/' part

filter-IsPart : (words : List Text) → All (Lacks b'/') words → All IsPart (filter is_part words)
filter-IsPart [] h = tt
filter-IsPart (w ∷ words) (f, fs) = elim (Bool-cases (is_part w)) [
  | inl kept ↦ rw kept ((kept, f), filter-IsPart words fs)
  | inr dropped ↦ rw dropped (filter-IsPart words fs)
]

-- The parts of every path are such parts.
pub path_of-IsPart : (name : Text) → All IsPart (path_of name).parts
unfolding path_of
path_of-IsPart name = filter-IsPart (split_on b'/' name) (split_on-Lacks b'/' name)

filter_parts : (words : List Text) → All IsPart words → filter is_part words ≡ words
filter_parts [] h = refl
filter_parts (w ∷ words) ((kept, _), hs) = rw (kept, filter_parts words hs) refl

All-Lacks : (words : List Text) → All IsPart words → All (Lacks b'/') words
All-Lacks [] h = tt
All-Lacks (w ∷ words) (h, hs) = (h.1, All-Lacks words hs)

-- Parts that are written with slashes are read back.
pub path_of-posix : (parts : List Text) → All IsPart parts → (path_of (posix parts)).parts ≡ parts
unfolding path_of posix split_on
path_of-posix [] h = refl
path_of-posix (part ∷ parts) h =
    ap (filter is_part) (split_on-join b'/' part parts (All-Lacks (part ∷ parts) h))
    ∙ filter_parts (part ∷ parts) h

starts_with-join :
    (part : Text) (parts : List Text)
    → IsPart part
    → starts_with (join b'/' (part ∷ parts)) (codes "/") ≡ false
unfolding join
starts_with-join [] parts (h, _) = cc
starts_with-join (c ∷ part) [] (h, (f, _)) = rw f refl
starts_with-join (c ∷ part) (q ∷ parts) (h, (f, _)) = rw f refl

is_absolute-posix :
    (parts : List Text) → All IsPart parts → (path_of (posix parts)).is_absolute ≡ false
unfolding path_of posix
is_absolute-posix [] h = refl
is_absolute-posix (part ∷ parts) h = starts_with-join part parts h.0

-- What `validate_path` has checked of the name that it returns.
pub record IsValid (t : Tree) (name : Text) (parts : List Text) : Type 0 where
  pub relative : (path_of name).is_absolute ≡ false
  pub same_parts : (path_of name).parts ≡ parts
  pub no_parent : contains parts (codes "..") ≡ false
  pub fits : eligible_parts parts ≡ true
  pub no_symlink : has_symlink t parts ≡ false
  pub regular : is_file t (posix parts) ≡ true

pub validate_path-IsValid :
    (t : Tree) (name result : Text)
    → validate_path t name ≡ ok result
    → IsValid t name (path_of name).parts × (posix (path_of name).parts ≡ result)
unfolding validate_path eligible
validate_path-IsValid t name result h =
    let (_, named, h1) =
      >>=-eq-ok
        (demand
          (not (
            (path_of name).is_absolute
            || contains (path_of name).parts (codes "..")
            || not (eligible name)))
          (invalid_path name))
        _ h in
    let (_, linked, h2) =
      >>=-eq-ok (demand (not (has_symlink t (path_of name).parts)) (symlink name)) _ h1 in
    let (_, stored, h3) =
      >>=-eq-ok (demand (is_file t (posix (path_of name).parts)) (not_a_file name)) _ h2 in
    let passed = demand-eq-ok _ _ named in
    let unlinked = demand-eq-ok _ _ linked in
    (
      record {
        relative = ground (arith, passed);
        same_parts = refl;
        no_parent = ground (arith, passed);
        fits = ground (arith, passed);
        no_symlink = ground (arith, unlinked);
        regular = demand-eq-ok _ _ stored;
      },
      ok-injective h3,
    )

pub IsValid-validate_path :
    (t : Tree) (name : Text) (parts : List Text)
    → IsValid t name parts
    → validate_path t name ≡ ok (posix parts)
unfolding validate_path eligible
IsValid-validate_path t name parts v =
    rw (v.relative, v.same_parts, v.no_parent, v.fits, v.no_symlink, v.regular) refl

-- If a name is accepted, then the name that `validate_path` returns for it is accepted too, and
-- returned as it is.
pub validate_path_idem :
    (t : Tree) (name result : Text)
    → validate_path t name ≡ ok result
    → validate_path t result ≡ ok result
validate_path_idem t name result h =
    let (v, same) = validate_path-IsValid t name result h in
    let parts = (path_of name).parts in
    subst (λ (x : Text). validate_path t x ≡ ok x) same
      (IsValid-validate_path t (posix parts) parts (record {
        relative = is_absolute-posix parts (path_of-IsPart name);
        same_parts = path_of-posix parts (path_of-IsPart name);
        no_parent = v.no_parent;
        fits = v.fits;
        no_symlink = v.no_symlink;
        regular = v.regular;
      }))
