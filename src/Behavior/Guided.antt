-- ===== src/Behavior/Guided.antt =====
-- What a simple behaviour remembers, and where its decisions lead.
use mathlib.Core.List.{foldl, append_assoc, append-nil, Memᴰ}
use agent_arena.Prelude.{
  ◌<◌, String, List, [], ◌∷◌, ◌++◌, none, ◌≡◌, true, refl, ◌∙◌, newest, string_key,
}
use agent_arena.Prelude.Bounded.{append_slice-newest, newest-push}
use agent_arena.Prelude.Floats.{Floats, IsFloats}
use agent_arena.Prelude.Json.{str, done, field}
use agent_arena.Prelude.Sort.{All}
use agent_arena.Schemas.{position_to_list}
use agent_arena.Schemas.Observation.{Observation}
use agent_arena.Schemas.Percepts.{ResourceInfo}
use agent_arena.Beginner.Priorities.{closest_resource-le}
use agent_arena.Starter.Collecting.{closest_resource}
use agent_arena.Behavior.Simple.{
  SimpleContext, SimpleAgentBehavior, from_observation, infer_parameters, internal_decide,
  decide_on,
}

module _ {F : Type 0} (decide : SimpleContext F → String) ⦃fl : Floats F⦄ where
  capacity_kept :
      (os : List (Observation F)) (b : SimpleAgentBehavior F)
      → (foldl (decide_on decide) b os).memory_capacity ≡ b.memory_capacity
  unfolding internal_decide
  capacity_kept [] b = refl
  capacity_kept (o ∷ os) b = capacity_kept os (decide_on decide b o)

  -- A behaviour that holds the newest observations of a history still does after more decisions.
  decisions-newest :
      (os history : List (Observation F)) (b : SimpleAgentBehavior F)
      → 0 < b.memory_capacity
      → b.observations ≡ newest b.memory_capacity history
      → (foldl (decide_on decide) b os).observations ≡ newest b.memory_capacity (history ++ os)
  unfolding internal_decide
  decisions-newest [] history b h e = e ∙ rw append-nil refl
  decisions-newest (o ∷ os) history b h e =
      let next =
        append_slice-newest b.memory_capacity b.observations o h
        ∙ rw e (newest-push b.memory_capacity history o) in
      decisions-newest os (history ++ o ∷ []) (decide_on decide b o) h next ∙ rw append_assoc refl

module _ {F : Type 0} ⦃fl : Floats F⦄ where
  closest_target :
      (c : SimpleContext F) (rs : List (ResourceInfo F)) (r : ResourceInfo F)
      → IsFloats fl
      → c.nearby_resources ≡ rs
      → Memᴰ r rs
      → (n : ResourceInfo F) × Memᴰ n rs
        × All (λ s. fl.le n.distance s.distance ≡ true) rs
        × (infer_parameters "move_to" c
            ≡ field "target_position" (position_to_list n.position) done)
        × (infer_parameters "pickup" c ≡ field "item_id" (str n.name) done)
  unfolding infer_parameters
  closest_target c [] r law e m = elim m [ ]
  closest_target c (s ∷ ss) r law e m =
      let (n, all) = closest_resource-le law s ss in
      (closest_resource s ss, n, all, rw e refl, rw e refl)

module _ {F : Type 0} (decide : SimpleContext F → String) ⦃fl : Floats F⦄ where
  -- On floats that are not NaN, with a resource in sight and a user's `decide` that answers "move_to":
  -- the decision leads to a resource in sight to which no other one is closer, and the parameters
  -- that "pickup" would have had take that same resource.
  pub internal_decide-closest :
      (o : Observation F) (b : SimpleAgentBehavior F) (r : ResourceInfo F)
      → IsFloats fl
      → Memᴰ r o.nearby_resources
      → decide (from_observation o b.goal) ≡ "move_to"
      → (n : ResourceInfo F) × Memᴰ n o.nearby_resources
        × All (λ s. fl.le n.distance s.distance ≡ true) o.nearby_resources
        × ((internal_decide decide o b).0 ≡ record {
          tool = "move_to";
          params = field "target_position" (position_to_list n.position) done;
          reasoning = none;
        })
        × (infer_parameters "pickup" (from_observation o b.goal)
            ≡ field "item_id" (str n.name) done)
  unfolding internal_decide from_observation
  internal_decide-closest o b r law m moving =
      let (n, seen, all, moves, takes) =
        closest_target (from_observation o b.goal) o.nearby_resources r law refl m in
      (n, seen, all, rw (moving, moves) refl, takes)
