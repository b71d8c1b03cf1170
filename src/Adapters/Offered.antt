-- ===== src/Adapters/Offered.antt =====
-- The decision for a failed model is one that the model was offered.
use mathlib.Core.List.{Memᴰ}
use mathlib.Core.Option.{some-injective}
use mathlib.Core.Path.{subst}
use agent_arena.Prelude.{
  ◌≡◌, refl, sym, String, true, List, [], ◌∷◌, Option, none, some, string_key, inl, inr, Bool-cases,
}
use agent_arena.Prelude.Dict.{is_some}
use agent_arena.Prelude.Floats.{Floats}
use agent_arena.Prelude.Int.{pos}
use agent_arena.Prelude.Json.{Json, Items, str, arr, end, item, done, field, get_field}
use agent_arena.Prelude.Sort.{All}
use agent_arena.Adapters.{
  get_action_tools, fallback_decision, flee, approach, scout, targets_of, or_decide,
}
use agent_arena.Beginner.{nearest_hazard}
use agent_arena.Episodes.Texts.{Format}
use agent_arena.Schemas.{Position, position_to_list}
use agent_arena.Schemas.Decision.{Decision}
use agent_arena.Schemas.Exploration.{ExploreTarget}
use agent_arena.Schemas.Observation.{Observation}
use agent_arena.Schemas.Percepts.{HazardInfo, ResourceInfo}
use agent_arena.Schemas.Tools.{ToolSchema}

module _ {F : Type 0} where
  abbrev texts_in : Items F → List String
  texts_in end = []
  texts_in (item (str s) js) = s ∷ texts_in js
  texts_in (item _ js) = texts_in js

  -- the names of the parameters that a schema requires
  abbrev pub required : Option (Json F) → List String
  required (some (arr js)) = texts_in js
  required _ = []

  -- The tool is one of the action tools, and its required parameters are given.
  abbrev pub IsOffered : Decision F → Type 0
  IsOffered d =
      (t : ToolSchema F) × Memᴰ t get_action_tools
      × (t.name ≡ d.tool)
      × All (λ k. is_some (get_field d.params k) ≡ true)
          (required (get_field t.parameters "required"))

  abbrev Moves : Decision F → Type 0
  Moves d =
      (d.tool ≡ "move_to")
      × ((p : Position F) × (d.params ≡ field "target_position" (position_to_list p) done))

  Moves-IsOffered : (d : Decision F) → Moves d → IsOffered d
  unfolding get_action_tools get_field
  Moves-IsOffered d (tool, (p, params)) = (_, Memᴰ.head refl, sym tool, (rw params refl, tt))

  or_decide-Moves :
      (first : Option (Decision F)) (next : Decision F)
      → ((d : Decision F) → first ≡ some d → Moves d)
      → Moves next
      → Moves (or_decide first next)
  or_decide-Moves none next h k = k
  or_decide-Moves (some d) next h k = h d refl

module _ {F : Type 0} (f : Format F) ⦃fl : Floats F⦄ where
  flee-Moves :
      (o : Observation F) (hs : List (HazardInfo F)) (d : Decision F)
      → flee f o hs ≡ some d
      → Moves d
  flee-Moves o [] d e = absurd (cc e)
  flee-Moves o (h ∷ hs) d e =
      elim (Bool-cases (fl.lt (nearest_hazard h hs).distance (fl.of_int (pos 3)))) [
        | inl near ↦ subst Moves (some-injective _ _ (rw near at e)) (refl, (_, refl))
        | inr far ↦ absurd (cc (rw far at e))
      ]

  approach-Moves : (rs : List (ResourceInfo F)) (d : Decision F) → approach f rs ≡ some d → Moves d
  approach-Moves [] d e = absurd (cc e)
  approach-Moves (r ∷ rs) d e = subst Moves (some-injective _ _ e) (refl, (_, refl))

  scout-Moves : (o : Observation F) (ts : List (ExploreTarget F)) → Moves (scout f o.position ts)
  scout-Moves o [] = (refl, (_, refl))
  scout-Moves o (t ∷ ts) = (refl, (_, refl))

  -- Whatever is observed, the fallback decision is a tool that was offered to the model, with every
  -- parameter that its schema requires: a move to a position.
  pub fallback_decision-IsOffered :
      (o : Observation F)
      → IsOffered (fallback_decision f o)
        × ((fallback_decision f o).tool ≡ "move_to")
        × ((p : Position F) × ((fallback_decision f o).params
              ≡ field "target_position" (position_to_list p) done))
  unfolding fallback_decision
  fallback_decision-IsOffered o =
      let moves : Moves (fallback_decision f o) =
        or_decide-Moves (flee f o o.nearby_hazards) _ (flee-Moves o o.nearby_hazards) (
          or_decide-Moves (approach f o.nearby_resources) _ (approach-Moves o.nearby_resources)
            (scout-Moves o (targets_of o.exploration))) in
      (Moves-IsOffered (fallback_decision f o) moves, moves.0, moves.1)
