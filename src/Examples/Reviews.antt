-- ===== src/Examples/Reviews.antt =====
-- A day's deck, and a run with a recall, a lost card and a choice.
use konku.Common.{
  ◌≤◌, ◌≡◌, refl, true, false, ◌&&◌, Text, codes, str_eq, List, [], ◌∷◌, ◌++◌, map, none, some,
  length, take, get_elem?, if◌then◌else◌,
}
use konku.Review.Deck.{DueCard, ingat, lupa, is_some}
use konku.Review.Deck
use konku.Review.Deck.Finish.{reviews, rate_all, reviews_finish}
use konku.Review.Deck.Laws.{handle_all-recorded}
use konku.Review.Run.{
  RunQuestion, Event, revealed, answer_came, pressed, landed, skipped, picked, start_index, opened,
  handle_all,
}
use konku.Review.Run.Steps.{cards_of, open_answer}
use konku.Review.Run.Laws.{handle_all-recorded_run}
use konku.Review.Run.Return.{effects, IsResumed, come_back_again}
use konku.Auth.Cache.{QueryClient}
use konku.Queries.Keys.{set_run}
use konku.Queries.Effects.{Mutation, answer_question, finish_run, start_run, Reply, on_success}
use konku.Examples.Browser.{cached}

abbrev due : List DueCard
due =
    record { id = codes "a"; front = codes "A?" }
    ∷ record { id = codes "b"; front = codes "B?" }
    ∷ []

abbrev morning : List Deck.Event
morning =
    Deck.rated ingat
    ∷ Deck.revealed
    ∷ Deck.answer_came (codes "A!")
    ∷ Deck.rated ingat
    ∷ Deck.refused
    ∷ Deck.rated lupa
    ∷ Deck.saved
    ∷ Deck.revealed
    ∷ []

handle_all-recorded_example :
    let d = Deck.handle_all morning (Deck.opened due 7) in
    (map (λ r. r.0) d.recorded ≡ take d.index (map (λ c. c.id) due))
    × (d.index ≤ length due)
    × ((if is_some d.recall.pending then is_some d.recall.back && d.recall.reveal else true) ≡ true)
handle_all-recorded_example = handle_all-recorded morning due 7

abbrev questions : List RunQuestion
questions =
    record {
      card_id = codes "a";
      front = codes "A?";
      rating = some lupa;
      options = [];
      missing = false;
    }
    ∷ record {
      card_id = codes "b";
      front = codes "B?";
      rating = none;
      options = [];
      missing = false;
    }
    ∷ record { card_id = codes "c"; front = []; rating = none; options = []; missing = true }
    ∷ record {
      card_id = codes "d";
      front = codes "D?";
      rating = none;
      options = codes "x" ∷ codes "y" ∷ [];
      missing = false;
    }
    ∷ []

abbrev answers : List Event
answers =
    revealed
    ∷ answer_came (codes "B!")
    ∷ pressed ingat
    ∷ landed (record { rating = ingat; correct_index = none })
    ∷ skipped
    ∷ picked 1
    ∷ landed (record { rating = lupa; correct_index = some 0 })
    ∷ []

handle_all-recorded_run_example :
    let s = handle_all answers (opened questions) in
    cards_of (take (start_index questions) questions) ++ map (λ r. r.0) s.recorded
    ≡ cards_of (take s.index questions) ++ open_answer (get_elem? questions s.index) s.asked
handle_all-recorded_run_example = handle_all-recorded_run answers questions

-- A cache that holds the questions of the run.
abbrev run_client : QueryClient (List RunQuestion)
run_client = cached (List RunQuestion)

abbrev holding_run : run_client.Cache
holding_run = (λ k. some questions, λ k. false)

abbrev answer_of : Reply run_client
answer_of = record { id = codes "r"; row = questions }

abbrev meanwhile : List (Mutation × Reply run_client)
meanwhile =
    (answer_question (codes "r") (codes "b") [], answer_of)
    ∷ (finish_run (codes "s"), answer_of)
    ∷ []

come_back_again_example :
    let s = handle_all answers (opened questions) in
    let later = effects run_client (λ qs. qs) meanwhile holding_run in
    let again = on_success run_client (start_run (codes "set") []) answer_of later in
    (IsResumed run_client (λ qs. qs) (run_client.read (set_run (codes "r")) later) questions s
      × (run_client.stale (set_run (codes "r")) later ≡ false))
    × (IsResumed run_client (λ qs. qs) (run_client.read (set_run (codes "r")) again) questions s
        × (run_client.stale (set_run (codes "r")) again ≡ false))
unfolding str_eq
come_back_again_example =
    come_back_again run_client (λ qs. qs) (codes "r") questions answers meanwhile holding_run
      (codes "set") [] answer_of refl refl refl refl

abbrev pressed_all : List (Text × Deck.Rating)
pressed_all = (codes "A!", ingat) ∷ (codes "B!", lupa) ∷ []

reviews_finish_example :
    (Deck.screen (Deck.handle_all (reviews pressed_all) (Deck.opened due 2)) ≡ Deck.finished)
    × ((Deck.handle_all (reviews pressed_all) (Deck.opened due 2)).recorded
        ≡ (codes "a", ingat) ∷ (codes "b", lupa) ∷ [])
unfolding rate_all
reviews_finish_example = reviews_finish due 2 pressed_all (λ e. cc) refl
