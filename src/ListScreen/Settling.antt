-- ===== src/ListScreen/Settling.antt =====
-- What the search box and the address come to agree on.
use mathlib.Core.Path.{subst}
use konku.Common.{
  ◌≡◌, ◌⊎◌, refl, sym, ap, ◌∙◌, inl, inr, true, Text, str_eq, str_eq_iff, none, some, All, List, [],
  ◌∷◌, ◌++◌, if◌then◌else◌, arith, Bool-cases, Option-cases,
}
use konku.ListScreen.Search.{
  Box, mounted, commit, schedule, typed, fire_by, fire, enter, render, Event, typing, time, entered,
  rendered, moved, handle, handle_all,
}

-- A timer in flight is for the text in the box, and without one the text has been settled.
abbrev IsTimed : Box → Type 0
IsTimed b = (b.timer ≡ some b.text) ⊎ ((b.timer ≡ none) × (b.text ≡ b.settled))

scheduled :
    (text settled url : Text) (commits : List Text)
    → IsTimed (record {
      text = text;
      settled = settled;
      timer = if str_eq text settled then none else some text;
      url = url;
      commits = commits;
    })
scheduled text settled url commits = elim (Bool-cases (str_eq text settled)) [
  | inl e ↦ inr (ap (λ x. if x then none else some text) e, (str_eq_iff text settled).0 e)
  | inr e ↦ inl (ap (λ x. if x then none else some text) e)
]

schedule-IsTimed :
    (last : Text) (b : Box) → (str_eq b.text last ≡ true → IsTimed b) → IsTimed (schedule last b)
unfolding schedule
schedule-IsTimed last b h = elim (Bool-cases (str_eq b.text last)) [
  | inl e ↦ rw e (h e)
  | inr e ↦ rw e (scheduled b.text b.settled b.url b.commits)
]

typed-IsTimed : (t : Text) (b : Box) → IsTimed b → IsTimed (typed t b)
unfolding typed
typed-IsTimed t b h =
    schedule-IsTimed b.text (record b { text = t })
      (λ e. subst (λ x. IsTimed (record b { text = x })) (sym ((str_eq_iff t b.text).0 e)) h)

fire-IsTimed : (b : Box) → IsTimed b → IsTimed (fire b)
unfolding fire commit
fire-IsTimed b (inl e) =
    subst (λ o. IsTimed (fire_by o b)) (sym e) (unfold commit in inr (refl, refl))
fire-IsTimed b (inr (e, f)) = subst (λ o. IsTimed (fire_by o b)) (sym e) (inr (e, f))

render-IsTimed : (b : Box) → IsTimed b → IsTimed (render b)
unfolding render
render-IsTimed b h = elim (Bool-cases (str_eq b.url b.settled)) [
  | inl e ↦ rw e h
  | inr e ↦ rw e (
      schedule-IsTimed b.text (record b { settled = b.url; text = b.url })
        (λ f. still h ((str_eq_iff b.url b.text).0 f)))
]
  where
    still : IsTimed b → b.url ≡ b.text → IsTimed (record b { settled = b.url; text = b.url })
    still (inl t) f = inl (t ∙ ap some (sym f))
    still (inr t) f = inr (t.0, refl)

enter-IsTimed : (b : Box) → IsTimed b → IsTimed (enter b)
unfolding enter commit
enter-IsTimed b (inl e) = inl e
enter-IsTimed b (inr e) = inr (e.0, refl)

handle-IsTimed : (e : Event) (b : Box) → IsTimed b → IsTimed (handle e b)
unfolding handle
handle-IsTimed (typing t) b h = typed-IsTimed t b h
handle-IsTimed time b h = fire-IsTimed b h
handle-IsTimed entered b h = enter-IsTimed b h
handle-IsTimed rendered b h = render-IsTimed b h
handle-IsTimed (moved value) b h = h

handle_all-IsTimed : (es : List Event) (b : Box) → IsTimed b → IsTimed (handle_all es b)
unfolding handle_all
handle_all-IsTimed [] b h = h
handle_all-IsTimed (e ∷ es) b h = handle_all-IsTimed es (handle e b) (handle-IsTimed e b h)

mounted-IsTimed : (value : Text) → IsTimed (mounted value)
unfolding mounted
mounted-IsTimed value = inr (refl, refl)

fired : (b : Box) → (fire b).timer ≡ none
unfolding fire commit
fired b = elim (Option-cases b.timer) [
  | inl e ↦ ap (λ o. (fire_by o b).timer) e ∙ e
  | inr (t, e) ↦ ap (λ o. (fire_by o b).timer) e
]

handle_all-append :
    (es fs : List Event) (b : Box) → handle_all (es ++ fs) b ≡ handle_all fs (handle_all es b)
unfolding handle_all
handle_all-append [] fs b = refl
handle_all-append (e ∷ es) fs b = handle_all-append es fs (handle e b)

-- The box shows the query of the address and nothing is pending.
abbrev IsQuiet : Box → Type 0
IsQuiet b = (b.text ≡ b.url) × (b.settled ≡ b.url) × (b.timer ≡ none)

unscheduled :
    (last : Text) (b : Box) → b.text ≡ b.settled → b.timer ≡ none → (schedule last b).timer ≡ none
unfolding schedule
unscheduled last b e t = elim (Bool-cases (str_eq b.text last)) [
  | inl f ↦ rw f t
  | inr f ↦ rw f (rw ((str_eq_iff b.text b.settled).1 e) refl)
]

schedule_text :
    (last : Text) (b : Box)
    → ((schedule last b).text ≡ b.text)
      × ((schedule last b).settled ≡ b.settled)
      × ((schedule last b).url ≡ b.url)
unfolding schedule
schedule_text last b = ground arith

text_settled : (b : Box) → IsTimed b → b.timer ≡ none → b.text ≡ b.settled
text_settled b (inl e) t = cc
text_settled b (inr e) t = e.1

render-IsQuiet : (b : Box) → IsTimed b → b.timer ≡ none → IsQuiet (render b)
unfolding render
render-IsQuiet b h t = elim (Bool-cases (str_eq b.url b.settled)) [
  | inl e ↦ rw e (
      let same : b.url ≡ b.settled = (str_eq_iff b.url b.settled).0 e in
      (text_settled b h t ∙ sym same, sym same, t))
  | inr e ↦ rw e (
      let told = record b { settled = b.url; text = b.url } in
      let kept = schedule_text b.text told in
      (kept.0 ∙ sym kept.2, kept.1 ∙ sym kept.2, unscheduled b.text told refl t))
]

-- Whatever happened to the box and to the address, once typing pauses and the screen has rendered the
-- box shows the query of the address, and nothing more is pending.
pub settles :
    (value : Text) (es : List Event)
    → let b = handle_all (es ++ time ∷ rendered ∷ []) (mounted value) in
      (b.text ≡ b.url) × (b.settled ≡ b.url) × (b.timer ≡ none)
unfolding handle_all handle
settles value es =
    let b = handle_all es (mounted value) in
    subst IsQuiet (sym (handle_all-append es (time ∷ rendered ∷ []) (mounted value))) (
      render-IsQuiet (fire b)
        (fire-IsTimed b (handle_all-IsTimed es (mounted value) (mounted-IsTimed value))) (fired b))

-- An event of the box itself, which no change of the address from outside is.
abbrev pub IsInside : Event → Type 0
IsInside (moved value) = ⊥
IsInside _ = Unit

-- The box and the address have agreed on what was last committed or shown.
abbrev IsInStep : Box → Type 0
IsInStep b = b.settled ≡ b.url

fire-IsInStep : (b : Box) → IsInStep b → IsInStep (fire b)
unfolding fire commit
fire-IsInStep b h = ground (arith, h)

rendered_in_step : (b : Box) → IsInStep b → render b ≡ b
unfolding render
rendered_in_step b h = rw ((str_eq_iff b.url b.settled).1 (sym h)) refl

inside-IsInStep : (e : Event) (b : Box) → IsInside e → IsInStep b → IsInStep (handle e b)
unfolding handle
inside-IsInStep (typing t) b i h =
    let kept = schedule_text b.text (record b { text = t }) in
    unfold typed in kept.1 ∙ h ∙ sym kept.2
inside-IsInStep time b i h = fire-IsInStep b h
inside-IsInStep entered b i h = unfold enter commit in refl
inside-IsInStep rendered b i h =
    ap (λ x. x.settled) (rendered_in_step b h) ∙ h ∙ sym (ap (λ x. x.url) (rendered_in_step b h))
inside-IsInStep (moved value) b i h = absurd i

handle_all-IsInStep :
    (es : List Event) (b : Box) → All IsInside es → IsInStep b → IsInStep (handle_all es b)
unfolding handle_all
handle_all-IsInStep [] b i h = h
handle_all-IsInStep (e ∷ es) b (i, is) h =
    handle_all-IsInStep es (handle e b) is (inside-IsInStep e b i h)

renders :
    (rs : List Event) (b : Box) → All (λ e. e ≡ rendered) rs → IsInStep b → handle_all rs b ≡ b
unfolding handle_all
renders [] b a h = refl
renders (e ∷ rs) b (f, a) h =
    let same : handle e b ≡ b = ap (λ x. handle x b) f ∙ unfold handle in rendered_in_step b h in
    ap (handle_all rs) same ∙ renders rs b a h

fired_text : (b : Box) → IsTimed b → IsInStep b → ((fire b).text ≡ b.text) × ((fire b).url ≡ b.text)
unfolding fire
fired_text b (inl e) s = (
  ap (λ o. (fire_by o b).text) e ∙ unfold commit in refl,
  ap (λ o. (fire_by o b).url) e ∙ unfold commit in refl,
)
fired_text b (inr (e, f)) s =
    (ap (λ o. (fire_by o b).text) e, ap (λ o. (fire_by o b).url) e ∙ sym s ∙ sym f)

-- While no one else changes the address, what is typed is what the address comes to hold once typing
-- pauses: the renders in between, with queries that were committed before, do not overwrite it.
pub typed_commits :
    (value t : Text) (es rs : List Event)
    → All IsInside es
    → All (λ e. e ≡ rendered) rs
    → let b = fire (handle_all rs (typed t (handle_all es (mounted value)))) in
      (b.text ≡ t) × (b.url ≡ t)
typed_commits value t es rs i r =
    let b = handle_all es (mounted value) in
    let step : IsInStep b = handle_all-IsInStep es (mounted value) i (unfold mounted in refl) in
    let timed : IsTimed (typed t b) =
      typed-IsTimed t b (handle_all-IsTimed es (mounted value) (mounted-IsTimed value)) in
    let step_t : IsInStep (typed t b) = unfold handle in inside-IsInStep (typing t) b tt step in
    let last = fired_text (typed t b) timed step_t in
    let holds : (typed t b).text ≡ t =
      unfold typed in (schedule_text b.text (record b { text = t })).0 in
    let same = ap fire (renders rs (typed t b) r step_t) in
    (ap (λ x. x.text) same ∙ last.0 ∙ holds, ap (λ x. x.url) same ∙ last.1 ∙ holds)
