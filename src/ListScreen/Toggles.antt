-- ===== src/ListScreen/Toggles.antt =====
-- What a press of a filter leaves of the address.
use konku.Common.{
  ◌≡◌, refl, sym, ap, ◌∙◌, inl, inr, Bool, true, false, ◌&&◌, not, Text, str_eq, str_eq_iff, truthy,
  All, List, [], ◌∷◌, ◌++◌, append-nil, append_assoc, filter, if◌then◌else◌, arith, Bool-cases,
}
use konku.Common.Sets.{has, has-append, has-filter}
use konku.Queries.Requests.{Params}
use konku.Queries.Laws.Filters.{values, values-append}
use konku.ListScreen.Params.{delete, append, append_all, chosen, toggle_param}

values-delete :
    (key k : Text) (ps : Params)
    → values k (delete key ps) ≡ (if str_eq key k then [] else values k ps)
unfolding values delete
values-delete key k [] = ground arith
values-delete key k ((j, v) ∷ ps) =
    ground (arith, values-delete key k ps, str_eq_iff j key, str_eq_iff j k, str_eq_iff key k)

values-append_one :
    (key value k : Text) (ps : Params)
    → values k (append key value ps)
      ≡ (if str_eq key k then values k ps ++ value ∷ [] else values k ps)
unfolding append
values-append_one key value k ps =
    values-append k ps ((key, value) ∷ [])
    ∙ unfold values in
      elim (Bool-cases (str_eq key k)) [
        | inl e ↦ rw e refl
        | inr e ↦ rw e (append-nil (values k ps))
      ]

values-append_all :
    (key k : Text) (vs : List Text) (ps : Params)
    → values k (append_all key vs ps) ≡ (if str_eq key k then values k ps ++ vs else values k ps)
unfolding append_all
values-append_all key k [] ps = elim (Bool-cases (str_eq key k)) [
  | inl e ↦ rw e (sym (append-nil (values k ps)))
  | inr e ↦ rw e refl
]
values-append_all key k (v ∷ vs) ps =
    values-append_all key k vs (append key v ps)
    ∙ rw (values-append_one key v k ps) (elim (Bool-cases (str_eq key k)) [
      | inl e ↦ rw e (append_assoc (values k ps) (v ∷ []) vs)
      | inr e ↦ rw e refl
    ])

has-filter-truthy : (y : Text) (xs : List Text) → has y (filter truthy xs) ≡ (has y xs && truthy y)
has-filter-truthy y xs = has-filter truthy y xs

abbrev last_if : Bool → Text → List Text
last_if true id = []
last_if false id = id ∷ []

-- What is chosen of a list after a press of `id`.
abbrev flipped : Text → List Text → List Text
flipped id current = filter (λ v. not (str_eq v id)) current ++ last_if (has id current) id

values-toggle_param :
    (key id k : Text) (ps : Params)
    → values k (toggle_param key id ps)
      ≡ (if str_eq key k then flipped id (chosen key ps) else values k ps)
unfolding toggle_param
values-toggle_param key id k ps =
    let current = chosen key ps in
    let rest = filter (λ v. not (str_eq v id)) current in
    let cut : values k (append_all key rest (delete key ps))
        ≡ (if str_eq key k then rest else values k ps) =
      values-append_all key k rest (delete key ps) ∙ rw (values-delete key k ps) (ground arith) in
    elim (Bool-cases (has id current)) [
      | inl e ↦ rw e (cut ∙ rw (append-nil rest) refl)
      | inr e ↦ rw e (values-append_one key id k _ ∙ rw cut (ground arith))
    ]

has-flipped :
    (id y : Text) (current : List Text)
    → has y (flipped id current) ≡ (if str_eq id y then not (has y current) else has y current)
has-flipped id y current =
    has-append y (filter (λ v. not (str_eq v id)) current) (last_if (has id current) id)
    ∙ rw (has-filter (λ v. not (str_eq v id)) y current)
        (unfold has in ground (arith, str_eq_iff id y, str_eq_iff y id))

same_name :
    (key id k y : Text) (ps : Params)
    → truthy id ≡ true
    → str_eq key k ≡ true
    → ((if str_eq id y then not (has y (chosen key ps)) else has y (chosen key ps)) && truthy y)
      ≡ (if str_eq id y then not (has y (chosen k ps)) else has y (chosen k ps))
unfolding chosen
same_name key id k y ps t e =
    let same : key ≡ k = (str_eq_iff key k).0 e in
    rw⁻¹ same (
      rw (has-filter-truthy y (values key ps)) (elim (Bool-cases (str_eq id y)) [
        | inl f ↦ ground (arith, t, ap truthy ((str_eq_iff id y).0 f))
        | inr f ↦ ground arith
      ]))

-- What is chosen under a name after one press.
has-toggle_param :
    (key id k y : Text) (ps : Params)
    → truthy id ≡ true
    → has y (chosen k (toggle_param key id ps))
      ≡ (if str_eq key k && str_eq id y then not (has y (chosen k ps)) else has y (chosen k ps))
unfolding chosen
has-toggle_param key id k y ps t =
    ap (λ l. has y (filter truthy l)) (values-toggle_param key id k ps)
    ∙ elim (Bool-cases (str_eq key k)) [
      | inl e ↦ rw e (
          has-filter-truthy y (flipped id (chosen key ps))
          ∙ rw (has-flipped id y (chosen key ps)) (same_name key id k y ps t e))
      | inr e ↦ rw e refl
    ]

-- A press of a filter: its name and its value.
abbrev pub Press : Type 0
Press = Text × Text

unfoldable pub press_all : List Press → Params → Params
press_all [] ps = ps
press_all ((key, id) ∷ presses) ps = press_all presses (toggle_param key id ps)

-- Whether a value has been pressed an odd number of times.
unfoldable pub is_odd : Text → Text → List Press → Bool
is_odd k y [] = false
is_odd k y ((key, id) ∷ presses) =
    let rest = is_odd k y presses in if str_eq key k && str_eq id y then not rest else rest

abbrev pub xor : Bool → Bool → Bool
xor true b = not b
xor false b = b

-- However filters are pressed one after the other, in whatever order, a value is chosen afterwards
-- when it was chosen before and has been pressed an even number of times, or was not and has been
-- pressed an odd number of times: no press undoes another's.
pub press_all_lem :
    (presses : List Press) (k y : Text) (ps : Params)
    → All (λ p. truthy p.1 ≡ true) presses
    → has y (chosen k (press_all presses ps)) ≡ xor (is_odd k y presses) (has y (chosen k ps))
unfolding press_all is_odd
press_all_lem [] k y ps h = refl
press_all_lem ((key, id) ∷ presses) k y ps (t, h) =
    press_all_lem presses k y (toggle_param key id ps) h
    ∙ rw (has-toggle_param key id k y ps t) (ground arith)

-- Pressing filters leaves the parameters of every other name as they were, in order.
pub press_all_kept :
    (presses : List Press) (k : Text) (ps : Params)
    → All (λ p. str_eq p.0 k ≡ false) presses
    → values k (press_all presses ps) ≡ values k ps
unfolding press_all
press_all_kept [] k ps h = refl
press_all_kept ((key, id) ∷ presses) k ps (f, h) =
    press_all_kept presses k (toggle_param key id ps) h
    ∙ values-toggle_param key id k ps
    ∙ rw f refl
