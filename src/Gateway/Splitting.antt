-- ===== src/Gateway/Splitting.antt =====
-- Splitting, joining and trimming texts.
use crispy_enigma.Base.{
  ◌≡◌, refl, ap, ◌∙◌, ℕ, List, [], ◌∷◌, ◌++◌, Bool, true, false, not, ◌&&◌, Bool-cases, inl, inr,
  if◌then◌else◌, ◌==◌, arith,
}
use crispy_enigma.Gateway.Cookies.{
  Text, prepend, split_on, join, is_space, trim_start, trim_end, trim,
}

-- No unit of the text passes the test.
abbrev pub none_of : (ℕ → Bool) → Text → Bool
none_of test [] = true
none_of test (c ∷ cs) = let rest = none_of test cs in not (test c) && rest

pub none_of-append :
    (test : ℕ → Bool) (us vs : Text)
    → none_of test us ≡ true
    → none_of test vs ≡ true
    → none_of test (us ++ vs) ≡ true
none_of-append test [] vs h k = k
none_of-append test (a ∷ us) vs h k = ground (arith, none_of-append test us vs)

pub ==-refl : (n : ℕ) → (n == n) ≡ true
==-refl n = ground arith

pub split_on-plain :
    (separator : ℕ) (us : Text)
    → none_of (λ u. u == separator) us ≡ true
    → split_on separator us ≡ us ∷ []
unfolding split_on
split_on-plain separator [] h = refl
split_on-plain separator (a ∷ us) h =
    let here : (a == separator) ≡ false = ground arith in
    let there : none_of (λ u. u == separator) us ≡ true = ground arith in
    rw (here, split_on-plain separator us there) refl

pub split_on-append :
    (separator : ℕ) (us vs : Text)
    → none_of (λ u. u == separator) us ≡ true
    → split_on separator (us ++ (separator ∷ vs)) ≡ us ∷ split_on separator vs
unfolding split_on
split_on-append separator [] vs h = rw (==-refl separator) refl
split_on-append separator (a ∷ us) vs h =
    let here : (a == separator) ≡ false = ground arith in
    let there : none_of (λ u. u == separator) us ≡ true = ground arith in
    rw (here, split_on-append separator us vs there) refl

abbrev has_parts : List Text → Bool
has_parts [] = false
has_parts (part ∷ parts) = true

if-has_parts :
    (test : Bool) (u : ℕ) (parts : List Text)
    → has_parts parts ≡ true
    → has_parts (if test then [] ∷ parts else prepend u parts) ≡ true
if-has_parts true u parts h = refl
if-has_parts false u [] h = h
if-has_parts false u (part ∷ parts) h = refl

split_on-has_parts : (separator : ℕ) (us : Text) → has_parts (split_on separator us) ≡ true
unfolding split_on
split_on-has_parts separator [] = refl
split_on-has_parts separator (u ∷ us) =
    if-has_parts (u == separator) u (split_on separator us) (split_on-has_parts separator us)

join_empty_first :
    (separator : ℕ) (parts : List Text)
    → has_parts parts ≡ true
    → join separator ([] ∷ parts) ≡ separator ∷ join separator parts
unfolding join
join_empty_first separator [] h = cc
join_empty_first separator (part ∷ parts) h = refl

join-prepend :
    (separator u : ℕ) (parts : List Text)
    → has_parts parts ≡ true
    → join separator (prepend u parts) ≡ u ∷ join separator parts
unfolding join
join-prepend separator u [] h = cc
join-prepend separator u (part ∷ []) h = refl
join-prepend separator u (part ∷ next ∷ parts) h = refl

pub join-split_on : (separator : ℕ) (us : Text) → join separator (split_on separator us) ≡ us
unfolding split_on join
join-split_on separator [] = refl
join-split_on separator (u ∷ us) =
    let parts = split_on separator us in
    let some_part = split_on-has_parts separator us in
    elim (Bool-cases (u == separator)) [
      | inl e ↦
          let same : separator ≡ u = grind arith in
          rw (e, join_empty_first separator parts some_part)
            (ap (λ v. v ∷ join separator parts) same
              ∙ ap (λ vs. u ∷ vs) (join-split_on separator us))
      | inr e ↦
          rw (e, join-prepend separator u parts some_part)
            (ap (λ vs. u ∷ vs) (join-split_on separator us))
    ]

-- Trimming.

trim_start-plain : (us : Text) → none_of is_space us ≡ true → trim_start us ≡ us
unfolding trim_start
trim_start-plain [] h = refl
trim_start-plain (u ∷ us) h = let here : is_space u ≡ false = ground arith in rw here refl

trim_end-plain : (us : Text) → none_of is_space us ≡ true → trim_end us ≡ us
unfolding trim_end
trim_end-plain [] h = refl
trim_end-plain (u ∷ []) h = let here : is_space u ≡ false = ground arith in rw here refl
trim_end-plain (u ∷ v ∷ us) h =
    let there : none_of is_space (v ∷ us) ≡ true = ground arith in
    rw (trim_end-plain (v ∷ us) there) refl

pub trim-plain : (us : Text) → none_of is_space us ≡ true → trim us ≡ us
unfolding trim
trim-plain us h = rw (trim_start-plain us h) (trim_end-plain us h)
