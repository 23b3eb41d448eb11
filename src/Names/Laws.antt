-- ===== src/Names/Laws.antt =====
-- No account is shown without a name or initials.
use konku.Common.{◌≡◌, refl, true, Text, List, [], ◌∷◌, ◌++◌, filter, All, map, take, truthy, arith}
use konku.Common.Trim.{trim}
use konku.Names.{
  User, or_text, display_name, greeting_name, first_character, concat, email_initials, initials_by,
  initials_for,
}

truthy-or_text : (a b : Text) → truthy b ≡ true → truthy (or_text a b) ≡ true
truthy-or_text [] b h = h
truthy-or_text (c ∷ a) b h = refl

truthy-append : (a b : Text) → truthy a ≡ true → truthy (a ++ b) ≡ true
truthy-append [] b h = cc
truthy-append (c ∷ a) b h = refl

truthy-first_character : (t : Text) → truthy t ≡ true → truthy (first_character t) ≡ true
unfolding first_character
truthy-first_character [] h = h
truthy-first_character (c ∷ []) h = refl
truthy-first_character (c ∷ d ∷ t) h = ground arith

truthy-take : (t : Text) → truthy t ≡ true → truthy (take 2 t) ≡ true
truthy-take [] h = h
truthy-take (c ∷ []) h = refl
truthy-take (c ∷ d ∷ t) h = refl

filter-truthy : (ts : List Text) → All (λ t. truthy t ≡ true) (filter truthy ts)
filter-truthy [] = tt
filter-truthy ([] ∷ ts) = filter-truthy ts
filter-truthy ((c ∷ t) ∷ ts) = (refl, filter-truthy ts)

truthy-email_initials :
    (upper : Text → Text) (email : Text)
    → ((t : Text) → truthy t ≡ true → truthy (upper t) ≡ true)
    → truthy email ≡ true
    → truthy (email_initials upper email) ≡ true
unfolding email_initials
truthy-email_initials upper email up e =
    truthy-or_text _ (upper (take 2 email)) (up (take 2 email) (truthy-take email e))

truthy-initials_by :
    (upper : Text → Text)
    → ((t : Text) → truthy t ≡ true → truthy (upper t) ≡ true)
    → (email : Text) → truthy email ≡ true
    → (ps : List Text) → All (λ t. truthy t ≡ true) ps
    → truthy (initials_by upper ps email) ≡ true
truthy-initials_by upper up email e [] h = truthy-email_initials upper email up e
truthy-initials_by upper up email e (p ∷ []) h =
    up _ (unfold concat in truthy-append (first_character p) [] (truthy-first_character p h.0))
truthy-initials_by upper up email e (p ∷ q ∷ ps) h =
    up _ (unfold concat in truthy-append (first_character p) _ (truthy-first_character p h.0))

-- An account with an address is never shown or greeted without a name, even when its names are
-- spaces, and has initials whenever upper case keeps what it is given from being empty.
pub named_lem :
    (upper : Text → Text) (user : User)
    → ((t : Text) → truthy t ≡ true → truthy (upper t) ≡ true)
    → truthy user.email ≡ true
    → (truthy (display_name user) ≡ true)
      × (truthy (greeting_name user) ≡ true)
      × (truthy (initials_for upper user) ≡ true)
unfolding display_name greeting_name initials_for
named_lem upper user up e = (
  truthy-or_text _ user.email e,
  truthy-or_text _ user.email e,
  truthy-initials_by upper up user.email e _
      (filter-truthy (map trim (user.first_name ∷ user.last_name ∷ []))),
)
