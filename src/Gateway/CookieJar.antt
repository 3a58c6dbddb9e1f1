-- ===== src/Gateway/CookieJar.antt =====
-- A header made of a jar of cookies reads back.
use crispy_enigma.Base.{
  ◌≡◌, refl, ◌∙◌, ℕ, List, [], ◌∷◌, ◌++◌, Bool, true, false, Option, none, some, if◌then◌else◌,
  ◌==◌, arith,
}
use crispy_enigma.Gateway.Cookies.{
  Text, semicolon, equals, space, same_text, prepend, split_on, is_space, trim_start, trim,
  value_if, or_next, find_cookie, read_cookie,
}
use crispy_enigma.Gateway.Splitting.{
  none_of, none_of-append, split_on-plain, split_on-append, join-split_on, trim-plain,
}

pub record Cookie : Type 0 where
  pub name : Text
  pub value : Text

-- A cookie without spaces and semicolons, and without `=` in its name.
pub record IsCookie (c : Cookie) : Type 0 where
  pub name_spaces : none_of is_space c.name ≡ true
  pub name_ends : none_of (λ u. u == semicolon) c.name ≡ true
  pub name_signs : none_of (λ u. u == equals) c.name ≡ true
  pub value_spaces : none_of is_space c.value ≡ true
  pub value_ends : none_of (λ u. u == semicolon) c.value ≡ true

abbrev pub cookie_text : Cookie → Text
cookie_text c = c.name ++ (equals ∷ c.value)

-- A browser's header: `name=value; name=value`.
unfoldable pub cookie_header : List Cookie → Text
cookie_header [] = []
cookie_header (c ∷ []) = cookie_text c
cookie_header (c ∷ d ∷ ds) = cookie_text c ++ (semicolon ∷ space ∷ cookie_header (d ∷ ds))

-- The value of the first cookie of a name.
unfoldable pub first_value : Text → List Cookie → Option Text
first_value name [] = none
first_value name (c ∷ cs) =
    let rest = first_value name cs in if same_text c.name name then some c.value else rest

abbrev pub AllCookies : List Cookie → Type 0
AllCookies [] = Unit
AllCookies (c ∷ cs) = IsCookie c × AllCookies cs

find_cookie-prepend :
    (name : Text) (parts : List Text)
    → find_cookie name (prepend space parts) ≡ find_cookie name parts
unfolding find_cookie trim trim_start
find_cookie-prepend name [] = refl
find_cookie-prepend name (part ∷ parts) = refl

module _ (name : Text) (c : Cookie) (h : IsCookie c) where
  cookie_text-none_of :
      (test : ℕ → Bool)
      → none_of test c.name ≡ true
      → test equals ≡ false
      → none_of test c.value ≡ true
      → none_of test (cookie_text c) ≡ true
  cookie_text-none_of test k l m = none_of-append test c.name (equals ∷ c.value) k (ground arith)

  value_if-cookie_text :
      value_if name (split_on equals (trim (cookie_text c)))
      ≡ (if same_text c.name name then some c.value else none)
  value_if-cookie_text =
      rw
        (
          trim-plain (cookie_text c)
              (cookie_text-none_of is_space h.name_spaces refl h.value_spaces),
          split_on-append equals c.name c.value h.name_signs,
          join-split_on equals c.value,
        )
        refl

or_next-if :
    (test : Bool) (value : Text) (next : Option Text)
    → or_next (if test then some value else none) next ≡ (if test then some value else next)
or_next-if true value next = refl
or_next-if false value next = refl

split_on-space :
    (us : Text) → split_on semicolon (space ∷ us) ≡ prepend space (split_on semicolon us)
unfolding split_on
split_on-space us = refl

find_cookie-header :
    (name : Text) (c : Cookie) (cs : List Cookie)
    → AllCookies (c ∷ cs)
    → find_cookie name (split_on semicolon (cookie_header (c ∷ cs))) ≡ first_value name (c ∷ cs)
unfolding find_cookie first_value cookie_header
find_cookie-header name c [] (h, hs) =
    rw
      (
        split_on-plain semicolon (cookie_text c)
            (cookie_text-none_of name c h (λ u. u == semicolon) h.name_ends refl h.value_ends),
        value_if-cookie_text name c h,
      )
      (or_next-if (same_text c.name name) c.value none)
find_cookie-header name c (d ∷ ds) (h, hs) =
    rw
      (
        split_on-append semicolon (cookie_text c) (space ∷ cookie_header (d ∷ ds))
            (cookie_text-none_of name c h (λ u. u == semicolon) h.name_ends refl h.value_ends),
        value_if-cookie_text name c h,
        split_on-space (cookie_header (d ∷ ds)),
        find_cookie-prepend name (split_on semicolon (cookie_header (d ∷ ds))),
        find_cookie-header name d ds hs,
      )
      (or_next-if (same_text c.name name) c.value _)

abbrev has_unit : Text → Bool
has_unit [] = false
has_unit (u ∷ us) = true

has_unit-append : (us vs : Text) → has_unit vs ≡ true → has_unit (us ++ vs) ≡ true
has_unit-append [] vs h = h
has_unit-append (u ∷ us) vs h = refl

has_unit-cookie_header : (c : Cookie) (cs : List Cookie) → has_unit (cookie_header (c ∷ cs)) ≡ true
unfolding cookie_header
has_unit-cookie_header c [] = has_unit-append c.name (equals ∷ c.value) refl
has_unit-cookie_header c (d ∷ ds) = has_unit-append (cookie_text c) _ refl

read_cookie-found :
    (name us : Text)
    → has_unit us ≡ true
    → read_cookie (some us) name ≡ find_cookie name (split_on semicolon us)
unfolding read_cookie
read_cookie-found name [] h = cc
read_cookie-found name (u ∷ us) h = refl

-- Of a header that lists cookies as `name=value`, with `; ` between two of them, `readCookie` reads
-- the value of the first cookie of a name, and nothing if there is none. The cookies hold no
-- spaces and no semicolons, and their names no `=`.
pub read_cookie-header :
    (name : Text) (cookies : List Cookie)
    → AllCookies cookies
    → read_cookie (some (cookie_header cookies)) name ≡ first_value name cookies
unfolding read_cookie first_value cookie_header
read_cookie-header name [] h = refl
read_cookie-header name (c ∷ cs) h =
    read_cookie-found name (cookie_header (c ∷ cs)) (has_unit-cookie_header c cs)
    ∙ find_cookie-header name c cs h
